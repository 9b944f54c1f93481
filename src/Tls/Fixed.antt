-- ===== src/Tls/Fixed.antt =====
-- TLS_CIPHER_SUITES of utils.py: the suites with a fixed Diffie-Hellman key exchange, and others.
use nonecorn.Prelude.{◌∷◌, [], List, ℕ}
use nonecorn.Bytes.{Text, codes}

abbrev pub dh_suites : List (Text × ℕ)
dh_suites =
    (codes "TLS_DH_DSS_EXPORT_WITH_DES40_CBC_SHA", 11)
    ∷ (codes "TLS_DH_DSS_WITH_3DES_EDE_CBC_SHA", 13)
    ∷ (codes "TLS_DH_DSS_WITH_AES_128_CBC_SHA", 48)
    ∷ (codes "TLS_DH_DSS_WITH_AES_128_CBC_SHA256", 62)
    ∷ (codes "TLS_DH_DSS_WITH_AES_128_GCM_SHA256", 164)
    ∷ (codes "TLS_DH_DSS_WITH_AES_256_CBC_SHA", 54)
    ∷ (codes "TLS_DH_DSS_WITH_AES_256_CBC_SHA256", 104)
    ∷ (codes "TLS_DH_DSS_WITH_AES_256_GCM_SHA384", 165)
    ∷ (codes "TLS_DH_DSS_WITH_ARIA_128_CBC_SHA256", 49214)
    ∷ (codes "TLS_DH_DSS_WITH_ARIA_128_GCM_SHA256", 49240)
    ∷ (codes "TLS_DH_DSS_WITH_ARIA_256_CBC_SHA384", 49215)
    ∷ (codes "TLS_DH_DSS_WITH_ARIA_256_GCM_SHA384", 49241)
    ∷ (codes "TLS_DH_DSS_WITH_CAMELLIA_128_CBC_SHA", 66)
    ∷ (codes "TLS_DH_DSS_WITH_CAMELLIA_128_CBC_SHA256", 187)
    ∷ (codes "TLS_DH_DSS_WITH_CAMELLIA_128_GCM_SHA256", 49282)
    ∷ (codes "TLS_DH_DSS_WITH_CAMELLIA_256_CBC_SHA", 133)
    ∷ (codes "TLS_DH_DSS_WITH_CAMELLIA_256_CBC_SHA256", 193)
    ∷ (codes "TLS_DH_DSS_WITH_CAMELLIA_256_GCM_SHA384", 49283)
    ∷ (codes "TLS_DH_DSS_WITH_DES_CBC_SHA", 12)
    ∷ (codes "TLS_DH_DSS_WITH_SEED_CBC_SHA", 151)
    ∷ (codes "TLS_DH_RSA_EXPORT_WITH_DES40_CBC_SHA", 14)
    ∷ (codes "TLS_DH_RSA_WITH_3DES_EDE_CBC_SHA", 16)
    ∷ (codes "TLS_DH_RSA_WITH_AES_128_CBC_SHA", 49)
    ∷ (codes "TLS_DH_RSA_WITH_AES_128_CBC_SHA256", 63)
    ∷ (codes "TLS_DH_RSA_WITH_AES_128_GCM_SHA256", 160)
    ∷ (codes "TLS_DH_RSA_WITH_AES_256_CBC_SHA", 55)
    ∷ (codes "TLS_DH_RSA_WITH_AES_256_CBC_SHA256", 105)
    ∷ (codes "TLS_DH_RSA_WITH_AES_256_GCM_SHA384", 161)
    ∷ (codes "TLS_DH_RSA_WITH_ARIA_128_CBC_SHA256", 49216)
    ∷ (codes "TLS_DH_RSA_WITH_ARIA_128_GCM_SHA256", 49236)
    ∷ (codes "TLS_DH_RSA_WITH_ARIA_256_CBC_SHA384", 49217)
    ∷ (codes "TLS_DH_RSA_WITH_ARIA_256_GCM_SHA384", 49237)
    ∷ (codes "TLS_DH_RSA_WITH_CAMELLIA_128_CBC_SHA", 67)
    ∷ (codes "TLS_DH_RSA_WITH_CAMELLIA_128_CBC_SHA256", 188)
    ∷ (codes "TLS_DH_RSA_WITH_CAMELLIA_128_GCM_SHA256", 49278)
    ∷ (codes "TLS_DH_RSA_WITH_CAMELLIA_256_CBC_SHA", 134)
    ∷ (codes "TLS_DH_RSA_WITH_CAMELLIA_256_CBC_SHA256", 194)
    ∷ (codes "TLS_DH_RSA_WITH_CAMELLIA_256_GCM_SHA384", 49279)
    ∷ (codes "TLS_DH_RSA_WITH_DES_CBC_SHA", 15)
    ∷ (codes "TLS_DH_RSA_WITH_SEED_CBC_SHA", 152)
    ∷ (codes "TLS_DH_anon_EXPORT_WITH_DES40_CBC_SHA", 25)
    ∷ (codes "TLS_DH_anon_EXPORT_WITH_RC4_40_MD5", 23)
    ∷ (codes "TLS_DH_anon_WITH_3DES_EDE_CBC_SHA", 27)
    ∷ (codes "TLS_DH_anon_WITH_AES_128_CBC_SHA", 52)
    ∷ (codes "TLS_DH_anon_WITH_AES_128_CBC_SHA256", 108)
    ∷ (codes "TLS_DH_anon_WITH_AES_128_GCM_SHA256", 166)
    ∷ (codes "TLS_DH_anon_WITH_AES_256_CBC_SHA", 58)
    ∷ (codes "TLS_DH_anon_WITH_AES_256_CBC_SHA256", 109)
    ∷ (codes "TLS_DH_anon_WITH_AES_256_GCM_SHA384", 167)
    ∷ (codes "TLS_DH_anon_WITH_ARIA_128_CBC_SHA256", 49222)
    ∷ (codes "TLS_DH_anon_WITH_ARIA_128_GCM_SHA256", 49242)
    ∷ (codes "TLS_DH_anon_WITH_ARIA_256_CBC_SHA384", 49223)
    ∷ (codes "TLS_DH_anon_WITH_ARIA_256_GCM_SHA384", 49243)
    ∷ (codes "TLS_DH_anon_WITH_CAMELLIA_128_CBC_SHA", 70)
    ∷ (codes "TLS_DH_anon_WITH_CAMELLIA_128_CBC_SHA256", 191)
    ∷ (codes "TLS_DH_anon_WITH_CAMELLIA_128_GCM_SHA256", 49284)
    ∷ (codes "TLS_DH_anon_WITH_CAMELLIA_256_CBC_SHA", 137)
    ∷ (codes "TLS_DH_anon_WITH_CAMELLIA_256_CBC_SHA256", 197)
    ∷ (codes "TLS_DH_anon_WITH_CAMELLIA_256_GCM_SHA384", 49285)
    ∷ (codes "TLS_DH_anon_WITH_DES_CBC_SHA", 26)
    ∷ (codes "TLS_DH_anon_WITH_RC4_128_MD5", 24)
    ∷ (codes "TLS_DH_anon_WITH_SEED_CBC_SHA", 155)
    ∷ (codes "TLS_ECCPWD_WITH_AES_128_CCM_SHA256", 49330)
    ∷ (codes "TLS_ECCPWD_WITH_AES_128_GCM_SHA256", 49328)
    ∷ (codes "TLS_ECCPWD_WITH_AES_256_CCM_SHA384", 49331)
    ∷ (codes "TLS_ECCPWD_WITH_AES_256_GCM_SHA384", 49329)
    ∷ []

abbrev pub ecdh_suites : List (Text × ℕ)
ecdh_suites =
    (codes "TLS_ECDH_ECDSA_WITH_3DES_EDE_CBC_SHA", 49155)
    ∷ (codes "TLS_ECDH_ECDSA_WITH_AES_128_CBC_SHA", 49156)
    ∷ (codes "TLS_ECDH_ECDSA_WITH_AES_128_CBC_SHA256", 49189)
    ∷ (codes "TLS_ECDH_ECDSA_WITH_AES_128_GCM_SHA256", 49197)
    ∷ (codes "TLS_ECDH_ECDSA_WITH_AES_256_CBC_SHA", 49157)
    ∷ (codes "TLS_ECDH_ECDSA_WITH_AES_256_CBC_SHA384", 49190)
    ∷ (codes "TLS_ECDH_ECDSA_WITH_AES_256_GCM_SHA384", 49198)
    ∷ (codes "TLS_ECDH_ECDSA_WITH_ARIA_128_CBC_SHA256", 49226)
    ∷ (codes "TLS_ECDH_ECDSA_WITH_ARIA_128_GCM_SHA256", 49246)
    ∷ (codes "TLS_ECDH_ECDSA_WITH_ARIA_256_CBC_SHA384", 49227)
    ∷ (codes "TLS_ECDH_ECDSA_WITH_ARIA_256_GCM_SHA384", 49247)
    ∷ (codes "TLS_ECDH_ECDSA_WITH_CAMELLIA_128_CBC_SHA256", 49268)
    ∷ (codes "TLS_ECDH_ECDSA_WITH_CAMELLIA_128_GCM_SHA256", 49288)
    ∷ (codes "TLS_ECDH_ECDSA_WITH_CAMELLIA_256_CBC_SHA384", 49269)
    ∷ (codes "TLS_ECDH_ECDSA_WITH_CAMELLIA_256_GCM_SHA384", 49289)
    ∷ (codes "TLS_ECDH_ECDSA_WITH_NULL_SHA", 49153)
    ∷ (codes "TLS_ECDH_ECDSA_WITH_RC4_128_SHA", 49154)
    ∷ (codes "TLS_ECDH_RSA_WITH_3DES_EDE_CBC_SHA", 49165)
    ∷ (codes "TLS_ECDH_RSA_WITH_AES_128_CBC_SHA", 49166)
    ∷ (codes "TLS_ECDH_RSA_WITH_AES_128_CBC_SHA256", 49193)
    ∷ (codes "TLS_ECDH_RSA_WITH_AES_128_GCM_SHA256", 49201)
    ∷ (codes "TLS_ECDH_RSA_WITH_AES_256_CBC_SHA", 49167)
    ∷ (codes "TLS_ECDH_RSA_WITH_AES_256_CBC_SHA384", 49194)
    ∷ (codes "TLS_ECDH_RSA_WITH_AES_256_GCM_SHA384", 49202)
    ∷ (codes "TLS_ECDH_RSA_WITH_ARIA_128_CBC_SHA256", 49230)
    ∷ (codes "TLS_ECDH_RSA_WITH_ARIA_128_GCM_SHA256", 49250)
    ∷ (codes "TLS_ECDH_RSA_WITH_ARIA_256_CBC_SHA384", 49231)
    ∷ (codes "TLS_ECDH_RSA_WITH_ARIA_256_GCM_SHA384", 49251)
    ∷ (codes "TLS_ECDH_RSA_WITH_CAMELLIA_128_CBC_SHA256", 49272)
    ∷ (codes "TLS_ECDH_RSA_WITH_CAMELLIA_128_GCM_SHA256", 49292)
    ∷ (codes "TLS_ECDH_RSA_WITH_CAMELLIA_256_CBC_SHA384", 49273)
    ∷ (codes "TLS_ECDH_RSA_WITH_CAMELLIA_256_GCM_SHA384", 49293)
    ∷ (codes "TLS_ECDH_RSA_WITH_NULL_SHA", 49163)
    ∷ (codes "TLS_ECDH_RSA_WITH_RC4_128_SHA", 49164)
    ∷ (codes "TLS_ECDH_anon_WITH_3DES_EDE_CBC_SHA", 49175)
    ∷ (codes "TLS_ECDH_anon_WITH_AES_128_CBC_SHA", 49176)
    ∷ (codes "TLS_ECDH_anon_WITH_AES_256_CBC_SHA", 49177)
    ∷ (codes "TLS_ECDH_anon_WITH_NULL_SHA", 49173)
    ∷ (codes "TLS_ECDH_anon_WITH_RC4_128_SHA", 49174)
    ∷ (codes "TLS_EMPTY_RENEGOTIATION_INFO_SCSV", 255)
    ∷ (codes "TLS_FALLBACK_SCSV", 22016)
    ∷ (codes "TLS_GOSTR341112_256_WITH_28147_CNT_IMIT", 49410)
    ∷ (codes "TLS_GOSTR341112_256_WITH_KUZNYECHIK_CTR_OMAC", 49408)
    ∷ (codes "TLS_GOSTR341112_256_WITH_KUZNYECHIK_MGM_L", 49411)
    ∷ (codes "TLS_GOSTR341112_256_WITH_KUZNYECHIK_MGM_S", 49413)
    ∷ (codes "TLS_GOSTR341112_256_WITH_MAGMA_CTR_OMAC", 49409)
    ∷ (codes "TLS_GOSTR341112_256_WITH_MAGMA_MGM_L", 49412)
    ∷ (codes "TLS_GOSTR341112_256_WITH_MAGMA_MGM_S", 49414)
    ∷ []
