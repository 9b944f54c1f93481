-- ===== src/Tls/Plain.antt =====
-- TLS_CIPHER_SUITES of utils.py: the suites with Kerberos, shared keys, RSA and passwords.
use nonecorn.Prelude.{◌∷◌, [], List, ℕ}
use nonecorn.Bytes.{Text, codes}

abbrev pub other_suites : List (Text × ℕ)
other_suites =
    (codes "TLS_KRB5_EXPORT_WITH_DES_CBC_40_MD5", 41)
    ∷ (codes "TLS_KRB5_EXPORT_WITH_DES_CBC_40_SHA", 38)
    ∷ (codes "TLS_KRB5_EXPORT_WITH_RC2_CBC_40_MD5", 42)
    ∷ (codes "TLS_KRB5_EXPORT_WITH_RC2_CBC_40_SHA", 39)
    ∷ (codes "TLS_KRB5_EXPORT_WITH_RC4_40_MD5", 43)
    ∷ (codes "TLS_KRB5_EXPORT_WITH_RC4_40_SHA", 40)
    ∷ (codes "TLS_KRB5_WITH_3DES_EDE_CBC_MD5", 35)
    ∷ (codes "TLS_KRB5_WITH_3DES_EDE_CBC_SHA", 31)
    ∷ (codes "TLS_KRB5_WITH_DES_CBC_MD5", 34)
    ∷ (codes "TLS_KRB5_WITH_DES_CBC_SHA", 30)
    ∷ (codes "TLS_KRB5_WITH_IDEA_CBC_MD5", 37)
    ∷ (codes "TLS_KRB5_WITH_IDEA_CBC_SHA", 33)
    ∷ (codes "TLS_KRB5_WITH_RC4_128_MD5", 36)
    ∷ (codes "TLS_KRB5_WITH_RC4_128_SHA", 32)
    ∷ (codes "TLS_NULL_WITH_NULL_NULL", 0)
    ∷ (codes "TLS_PSK_DHE_WITH_AES_128_CCM_8", 49322)
    ∷ (codes "TLS_PSK_DHE_WITH_AES_256_CCM_8", 49323)
    ∷ (codes "TLS_PSK_WITH_3DES_EDE_CBC_SHA", 139)
    ∷ (codes "TLS_PSK_WITH_AES_128_CBC_SHA", 140)
    ∷ (codes "TLS_PSK_WITH_AES_128_CBC_SHA256", 174)
    ∷ (codes "TLS_PSK_WITH_AES_128_CCM", 49316)
    ∷ (codes "TLS_PSK_WITH_AES_128_CCM_8", 49320)
    ∷ (codes "TLS_PSK_WITH_AES_128_GCM_SHA256", 168)
    ∷ (codes "TLS_PSK_WITH_AES_256_CBC_SHA", 141)
    ∷ (codes "TLS_PSK_WITH_AES_256_CBC_SHA384", 175)
    ∷ (codes "TLS_PSK_WITH_AES_256_CCM", 49317)
    ∷ (codes "TLS_PSK_WITH_AES_256_CCM_8", 49321)
    ∷ (codes "TLS_PSK_WITH_AES_256_GCM_SHA384", 169)
    ∷ (codes "TLS_PSK_WITH_ARIA_128_CBC_SHA256", 49252)
    ∷ (codes "TLS_PSK_WITH_ARIA_128_GCM_SHA256", 49258)
    ∷ (codes "TLS_PSK_WITH_ARIA_256_CBC_SHA384", 49253)
    ∷ (codes "TLS_PSK_WITH_ARIA_256_GCM_SHA384", 49259)
    ∷ (codes "TLS_PSK_WITH_CAMELLIA_128_CBC_SHA256", 49300)
    ∷ (codes "TLS_PSK_WITH_CAMELLIA_128_GCM_SHA256", 49294)
    ∷ (codes "TLS_PSK_WITH_CAMELLIA_256_CBC_SHA384", 49301)
    ∷ (codes "TLS_PSK_WITH_CAMELLIA_256_GCM_SHA384", 49295)
    ∷ (codes "TLS_PSK_WITH_CHACHA20_POLY1305_SHA256", 52395)
    ∷ (codes "TLS_PSK_WITH_NULL_SHA", 44)
    ∷ (codes "TLS_PSK_WITH_NULL_SHA256", 176)
    ∷ (codes "TLS_PSK_WITH_NULL_SHA384", 177)
    ∷ (codes "TLS_PSK_WITH_RC4_128_SHA", 138)
    ∷ (codes "TLS_RSA_EXPORT_WITH_DES40_CBC_SHA", 8)
    ∷ (codes "TLS_RSA_EXPORT_WITH_RC2_CBC_40_MD5", 6)
    ∷ (codes "TLS_RSA_EXPORT_WITH_RC4_40_MD5", 3)
    ∷ (codes "TLS_RSA_PSK_WITH_3DES_EDE_CBC_SHA", 147)
    ∷ (codes "TLS_RSA_PSK_WITH_AES_128_CBC_SHA", 148)
    ∷ (codes "TLS_RSA_PSK_WITH_AES_128_CBC_SHA256", 182)
    ∷ (codes "TLS_RSA_PSK_WITH_AES_128_GCM_SHA256", 172)
    ∷ (codes "TLS_RSA_PSK_WITH_AES_256_CBC_SHA", 149)
    ∷ (codes "TLS_RSA_PSK_WITH_AES_256_CBC_SHA384", 183)
    ∷ (codes "TLS_RSA_PSK_WITH_AES_256_GCM_SHA384", 173)
    ∷ (codes "TLS_RSA_PSK_WITH_ARIA_128_CBC_SHA256", 49256)
    ∷ (codes "TLS_RSA_PSK_WITH_ARIA_128_GCM_SHA256", 49262)
    ∷ (codes "TLS_RSA_PSK_WITH_ARIA_256_CBC_SHA384", 49257)
    ∷ (codes "TLS_RSA_PSK_WITH_ARIA_256_GCM_SHA384", 49263)
    ∷ (codes "TLS_RSA_PSK_WITH_CAMELLIA_128_CBC_SHA256", 49304)
    ∷ (codes "TLS_RSA_PSK_WITH_CAMELLIA_128_GCM_SHA256", 49298)
    ∷ (codes "TLS_RSA_PSK_WITH_CAMELLIA_256_CBC_SHA384", 49305)
    ∷ (codes "TLS_RSA_PSK_WITH_CAMELLIA_256_GCM_SHA384", 49299)
    ∷ (codes "TLS_RSA_PSK_WITH_CHACHA20_POLY1305_SHA256", 52398)
    ∷ (codes "TLS_RSA_PSK_WITH_NULL_SHA", 46)
    ∷ (codes "TLS_RSA_PSK_WITH_NULL_SHA256", 184)
    ∷ (codes "TLS_RSA_PSK_WITH_NULL_SHA384", 185)
    ∷ (codes "TLS_RSA_PSK_WITH_RC4_128_SHA", 146)
    ∷ (codes "TLS_RSA_WITH_3DES_EDE_CBC_SHA", 10)
    ∷ (codes "TLS_RSA_WITH_AES_128_CBC_SHA", 47)
    ∷ (codes "TLS_RSA_WITH_AES_128_CBC_SHA256", 60)
    ∷ (codes "TLS_RSA_WITH_AES_128_CCM", 49308)
    ∷ (codes "TLS_RSA_WITH_AES_128_CCM_8", 49312)
    ∷ (codes "TLS_RSA_WITH_AES_128_GCM_SHA256", 156)
    ∷ (codes "TLS_RSA_WITH_AES_256_CBC_SHA", 53)
    ∷ (codes "TLS_RSA_WITH_AES_256_CBC_SHA256", 61)
    ∷ (codes "TLS_RSA_WITH_AES_256_CCM", 49309)
    ∷ (codes "TLS_RSA_WITH_AES_256_CCM_8", 49313)
    ∷ (codes "TLS_RSA_WITH_AES_256_GCM_SHA384", 157)
    ∷ (codes "TLS_RSA_WITH_ARIA_128_CBC_SHA256", 49212)
    ∷ (codes "TLS_RSA_WITH_ARIA_128_GCM_SHA256", 49232)
    ∷ (codes "TLS_RSA_WITH_ARIA_256_CBC_SHA384", 49213)
    ∷ (codes "TLS_RSA_WITH_ARIA_256_GCM_SHA384", 49233)
    ∷ (codes "TLS_RSA_WITH_CAMELLIA_128_CBC_SHA", 65)
    ∷ (codes "TLS_RSA_WITH_CAMELLIA_128_CBC_SHA256", 186)
    ∷ (codes "TLS_RSA_WITH_CAMELLIA_128_GCM_SHA256", 49274)
    ∷ (codes "TLS_RSA_WITH_CAMELLIA_256_CBC_SHA", 132)
    ∷ (codes "TLS_RSA_WITH_CAMELLIA_256_CBC_SHA256", 192)
    ∷ (codes "TLS_RSA_WITH_CAMELLIA_256_GCM_SHA384", 49275)
    ∷ (codes "TLS_RSA_WITH_DES_CBC_SHA", 9)
    ∷ (codes "TLS_RSA_WITH_IDEA_CBC_SHA", 7)
    ∷ (codes "TLS_RSA_WITH_NULL_MD5", 1)
    ∷ (codes "TLS_RSA_WITH_NULL_SHA", 2)
    ∷ (codes "TLS_RSA_WITH_NULL_SHA256", 59)
    ∷ (codes "TLS_RSA_WITH_RC4_128_MD5", 4)
    ∷ (codes "TLS_RSA_WITH_RC4_128_SHA", 5)
    ∷ (codes "TLS_RSA_WITH_SEED_CBC_SHA", 150)
    ∷ (codes "TLS_SHA256_SHA256", 49332)
    ∷ (codes "TLS_SHA384_SHA384", 49333)
    ∷ (codes "TLS_SM4_CCM_SM3", 199)
    ∷ (codes "TLS_SM4_GCM_SM3", 198)
    ∷ (codes "TLS_SRP_SHA_DSS_WITH_3DES_EDE_CBC_SHA", 49180)
    ∷ (codes "TLS_SRP_SHA_DSS_WITH_AES_128_CBC_SHA", 49183)
    ∷ (codes "TLS_SRP_SHA_DSS_WITH_AES_256_CBC_SHA", 49186)
    ∷ (codes "TLS_SRP_SHA_RSA_WITH_3DES_EDE_CBC_SHA", 49179)
    ∷ (codes "TLS_SRP_SHA_RSA_WITH_AES_128_CBC_SHA", 49182)
    ∷ (codes "TLS_SRP_SHA_RSA_WITH_AES_256_CBC_SHA", 49185)
    ∷ (codes "TLS_SRP_SHA_WITH_3DES_EDE_CBC_SHA", 49178)
    ∷ (codes "TLS_SRP_SHA_WITH_AES_128_CBC_SHA", 49181)
    ∷ (codes "TLS_SRP_SHA_WITH_AES_256_CBC_SHA", 49184)
    ∷ []
