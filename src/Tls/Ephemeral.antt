-- ===== src/Tls/Ephemeral.antt =====
-- TLS_CIPHER_SUITES of utils.py: the suites of TLS 1.3, and those with an ephemeral key exchange.
use nonecorn.Prelude.{◌∷◌, [], List, ℕ}
use nonecorn.Bytes.{Text, codes}

abbrev pub dhe_suites : List (Text × ℕ)
dhe_suites =
    (codes "TLS_AEGIS_128L_SHA256", 4871)
    ∷ (codes "TLS_AEGIS_256_SHA512", 4870)
    ∷ (codes "TLS_AES_128_CCM_8_SHA256", 4869)
    ∷ (codes "TLS_AES_128_CCM_SHA256", 4868)
    ∷ (codes "TLS_AES_128_GCM_SHA256", 4865)
    ∷ (codes "TLS_AES_256_GCM_SHA384", 4866)
    ∷ (codes "TLS_CHACHA20_POLY1305_SHA256", 4867)
    ∷ (codes "TLS_DHE_DSS_EXPORT_WITH_DES40_CBC_SHA", 17)
    ∷ (codes "TLS_DHE_DSS_WITH_3DES_EDE_CBC_SHA", 19)
    ∷ (codes "TLS_DHE_DSS_WITH_AES_128_CBC_SHA", 50)
    ∷ (codes "TLS_DHE_DSS_WITH_AES_128_CBC_SHA256", 64)
    ∷ (codes "TLS_DHE_DSS_WITH_AES_128_GCM_SHA256", 162)
    ∷ (codes "TLS_DHE_DSS_WITH_AES_256_CBC_SHA", 56)
    ∷ (codes "TLS_DHE_DSS_WITH_AES_256_CBC_SHA256", 106)
    ∷ (codes "TLS_DHE_DSS_WITH_AES_256_GCM_SHA384", 163)
    ∷ (codes "TLS_DHE_DSS_WITH_ARIA_128_CBC_SHA256", 49218)
    ∷ (codes "TLS_DHE_DSS_WITH_ARIA_128_GCM_SHA256", 49238)
    ∷ (codes "TLS_DHE_DSS_WITH_ARIA_256_CBC_SHA384", 49219)
    ∷ (codes "TLS_DHE_DSS_WITH_ARIA_256_GCM_SHA384", 49239)
    ∷ (codes "TLS_DHE_DSS_WITH_CAMELLIA_128_CBC_SHA", 68)
    ∷ (codes "TLS_DHE_DSS_WITH_CAMELLIA_128_CBC_SHA256", 189)
    ∷ (codes "TLS_DHE_DSS_WITH_CAMELLIA_128_GCM_SHA256", 49280)
    ∷ (codes "TLS_DHE_DSS_WITH_CAMELLIA_256_CBC_SHA", 135)
    ∷ (codes "TLS_DHE_DSS_WITH_CAMELLIA_256_CBC_SHA256", 195)
    ∷ (codes "TLS_DHE_DSS_WITH_CAMELLIA_256_GCM_SHA384", 49281)
    ∷ (codes "TLS_DHE_DSS_WITH_DES_CBC_SHA", 18)
    ∷ (codes "TLS_DHE_DSS_WITH_SEED_CBC_SHA", 153)
    ∷ (codes "TLS_DHE_PSK_WITH_3DES_EDE_CBC_SHA", 143)
    ∷ (codes "TLS_DHE_PSK_WITH_AES_128_CBC_SHA", 144)
    ∷ (codes "TLS_DHE_PSK_WITH_AES_128_CBC_SHA256", 178)
    ∷ (codes "TLS_DHE_PSK_WITH_AES_128_CCM", 49318)
    ∷ (codes "TLS_DHE_PSK_WITH_AES_128_GCM_SHA256", 170)
    ∷ (codes "TLS_DHE_PSK_WITH_AES_256_CBC_SHA", 145)
    ∷ (codes "TLS_DHE_PSK_WITH_AES_256_CBC_SHA384", 179)
    ∷ (codes "TLS_DHE_PSK_WITH_AES_256_CCM", 49319)
    ∷ (codes "TLS_DHE_PSK_WITH_AES_256_GCM_SHA384", 171)
    ∷ (codes "TLS_DHE_PSK_WITH_ARIA_128_CBC_SHA256", 49254)
    ∷ (codes "TLS_DHE_PSK_WITH_ARIA_128_GCM_SHA256", 49260)
    ∷ (codes "TLS_DHE_PSK_WITH_ARIA_256_CBC_SHA384", 49255)
    ∷ (codes "TLS_DHE_PSK_WITH_ARIA_256_GCM_SHA384", 49261)
    ∷ (codes "TLS_DHE_PSK_WITH_CAMELLIA_128_CBC_SHA256", 49302)
    ∷ (codes "TLS_DHE_PSK_WITH_CAMELLIA_128_GCM_SHA256", 49296)
    ∷ (codes "TLS_DHE_PSK_WITH_CAMELLIA_256_CBC_SHA384", 49303)
    ∷ (codes "TLS_DHE_PSK_WITH_CAMELLIA_256_GCM_SHA384", 49297)
    ∷ (codes "TLS_DHE_PSK_WITH_CHACHA20_POLY1305_SHA256", 52397)
    ∷ (codes "TLS_DHE_PSK_WITH_NULL_SHA", 45)
    ∷ (codes "TLS_DHE_PSK_WITH_NULL_SHA256", 180)
    ∷ (codes "TLS_DHE_PSK_WITH_NULL_SHA384", 181)
    ∷ (codes "TLS_DHE_PSK_WITH_RC4_128_SHA", 142)
    ∷ (codes "TLS_DHE_RSA_EXPORT_WITH_DES40_CBC_SHA", 20)
    ∷ (codes "TLS_DHE_RSA_WITH_3DES_EDE_CBC_SHA", 22)
    ∷ (codes "TLS_DHE_RSA_WITH_AES_128_CBC_SHA", 51)
    ∷ (codes "TLS_DHE_RSA_WITH_AES_128_CBC_SHA256", 103)
    ∷ (codes "TLS_DHE_RSA_WITH_AES_128_CCM", 49310)
    ∷ (codes "TLS_DHE_RSA_WITH_AES_128_CCM_8", 49314)
    ∷ (codes "TLS_DHE_RSA_WITH_AES_128_GCM_SHA256", 158)
    ∷ (codes "TLS_DHE_RSA_WITH_AES_256_CBC_SHA", 57)
    ∷ (codes "TLS_DHE_RSA_WITH_AES_256_CBC_SHA256", 107)
    ∷ (codes "TLS_DHE_RSA_WITH_AES_256_CCM", 49311)
    ∷ (codes "TLS_DHE_RSA_WITH_AES_256_CCM_8", 49315)
    ∷ (codes "TLS_DHE_RSA_WITH_AES_256_GCM_SHA384", 159)
    ∷ (codes "TLS_DHE_RSA_WITH_ARIA_128_CBC_SHA256", 49220)
    ∷ (codes "TLS_DHE_RSA_WITH_ARIA_128_GCM_SHA256", 49234)
    ∷ (codes "TLS_DHE_RSA_WITH_ARIA_256_CBC_SHA384", 49221)
    ∷ (codes "TLS_DHE_RSA_WITH_ARIA_256_GCM_SHA384", 49235)
    ∷ (codes "TLS_DHE_RSA_WITH_CAMELLIA_128_CBC_SHA", 69)
    ∷ (codes "TLS_DHE_RSA_WITH_CAMELLIA_128_CBC_SHA256", 190)
    ∷ (codes "TLS_DHE_RSA_WITH_CAMELLIA_128_GCM_SHA256", 49276)
    ∷ (codes "TLS_DHE_RSA_WITH_CAMELLIA_256_CBC_SHA", 136)
    ∷ (codes "TLS_DHE_RSA_WITH_CAMELLIA_256_CBC_SHA256", 196)
    ∷ (codes "TLS_DHE_RSA_WITH_CAMELLIA_256_GCM_SHA384", 49277)
    ∷ (codes "TLS_DHE_RSA_WITH_CHACHA20_POLY1305_SHA256", 52394)
    ∷ (codes "TLS_DHE_RSA_WITH_DES_CBC_SHA", 21)
    ∷ (codes "TLS_DHE_RSA_WITH_SEED_CBC_SHA", 154)
    ∷ []

abbrev pub ecdhe_suites : List (Text × ℕ)
ecdhe_suites =
    (codes "TLS_ECDHE_ECDSA_WITH_3DES_EDE_CBC_SHA", 49160)
    ∷ (codes "TLS_ECDHE_ECDSA_WITH_AES_128_CBC_SHA", 49161)
    ∷ (codes "TLS_ECDHE_ECDSA_WITH_AES_128_CBC_SHA256", 49187)
    ∷ (codes "TLS_ECDHE_ECDSA_WITH_AES_128_CCM", 49324)
    ∷ (codes "TLS_ECDHE_ECDSA_WITH_AES_128_CCM_8", 49326)
    ∷ (codes "TLS_ECDHE_ECDSA_WITH_AES_128_GCM_SHA256", 49195)
    ∷ (codes "TLS_ECDHE_ECDSA_WITH_AES_256_CBC_SHA", 49162)
    ∷ (codes "TLS_ECDHE_ECDSA_WITH_AES_256_CBC_SHA384", 49188)
    ∷ (codes "TLS_ECDHE_ECDSA_WITH_AES_256_CCM", 49325)
    ∷ (codes "TLS_ECDHE_ECDSA_WITH_AES_256_CCM_8", 49327)
    ∷ (codes "TLS_ECDHE_ECDSA_WITH_AES_256_GCM_SHA384", 49196)
    ∷ (codes "TLS_ECDHE_ECDSA_WITH_ARIA_128_CBC_SHA256", 49224)
    ∷ (codes "TLS_ECDHE_ECDSA_WITH_ARIA_128_GCM_SHA256", 49244)
    ∷ (codes "TLS_ECDHE_ECDSA_WITH_ARIA_256_CBC_SHA384", 49225)
    ∷ (codes "TLS_ECDHE_ECDSA_WITH_ARIA_256_GCM_SHA384", 49245)
    ∷ (codes "TLS_ECDHE_ECDSA_WITH_CAMELLIA_128_CBC_SHA256", 49266)
    ∷ (codes "TLS_ECDHE_ECDSA_WITH_CAMELLIA_128_GCM_SHA256", 49286)
    ∷ (codes "TLS_ECDHE_ECDSA_WITH_CAMELLIA_256_CBC_SHA384", 49267)
    ∷ (codes "TLS_ECDHE_ECDSA_WITH_CAMELLIA_256_GCM_SHA384", 49287)
    ∷ (codes "TLS_ECDHE_ECDSA_WITH_CHACHA20_POLY1305_SHA256", 52393)
    ∷ (codes "TLS_ECDHE_ECDSA_WITH_NULL_SHA", 49158)
    ∷ (codes "TLS_ECDHE_ECDSA_WITH_RC4_128_SHA", 49159)
    ∷ (codes "TLS_ECDHE_PSK_WITH_3DES_EDE_CBC_SHA", 49204)
    ∷ (codes "TLS_ECDHE_PSK_WITH_AES_128_CBC_SHA", 49205)
    ∷ (codes "TLS_ECDHE_PSK_WITH_AES_128_CBC_SHA256", 49207)
    ∷ (codes "TLS_ECDHE_PSK_WITH_AES_128_CCM_8_SHA256", 53251)
    ∷ (codes "TLS_ECDHE_PSK_WITH_AES_128_CCM_SHA256", 53253)
    ∷ (codes "TLS_ECDHE_PSK_WITH_AES_128_GCM_SHA256", 53249)
    ∷ (codes "TLS_ECDHE_PSK_WITH_AES_256_CBC_SHA", 49206)
    ∷ (codes "TLS_ECDHE_PSK_WITH_AES_256_CBC_SHA384", 49208)
    ∷ (codes "TLS_ECDHE_PSK_WITH_AES_256_GCM_SHA384", 53250)
    ∷ (codes "TLS_ECDHE_PSK_WITH_ARIA_128_CBC_SHA256", 49264)
    ∷ (codes "TLS_ECDHE_PSK_WITH_ARIA_256_CBC_SHA384", 49265)
    ∷ (codes "TLS_ECDHE_PSK_WITH_CAMELLIA_128_CBC_SHA256", 49306)
    ∷ (codes "TLS_ECDHE_PSK_WITH_CAMELLIA_256_CBC_SHA384", 49307)
    ∷ (codes "TLS_ECDHE_PSK_WITH_CHACHA20_POLY1305_SHA256", 52396)
    ∷ (codes "TLS_ECDHE_PSK_WITH_NULL_SHA", 49209)
    ∷ (codes "TLS_ECDHE_PSK_WITH_NULL_SHA256", 49210)
    ∷ (codes "TLS_ECDHE_PSK_WITH_NULL_SHA384", 49211)
    ∷ (codes "TLS_ECDHE_PSK_WITH_RC4_128_SHA", 49203)
    ∷ (codes "TLS_ECDHE_RSA_WITH_3DES_EDE_CBC_SHA", 49170)
    ∷ (codes "TLS_ECDHE_RSA_WITH_AES_128_CBC_SHA", 49171)
    ∷ (codes "TLS_ECDHE_RSA_WITH_AES_128_CBC_SHA256", 49191)
    ∷ (codes "TLS_ECDHE_RSA_WITH_AES_128_GCM_SHA256", 49199)
    ∷ (codes "TLS_ECDHE_RSA_WITH_AES_256_CBC_SHA", 49172)
    ∷ (codes "TLS_ECDHE_RSA_WITH_AES_256_CBC_SHA384", 49192)
    ∷ (codes "TLS_ECDHE_RSA_WITH_AES_256_GCM_SHA384", 49200)
    ∷ (codes "TLS_ECDHE_RSA_WITH_ARIA_128_CBC_SHA256", 49228)
    ∷ (codes "TLS_ECDHE_RSA_WITH_ARIA_128_GCM_SHA256", 49248)
    ∷ (codes "TLS_ECDHE_RSA_WITH_ARIA_256_CBC_SHA384", 49229)
    ∷ (codes "TLS_ECDHE_RSA_WITH_ARIA_256_GCM_SHA384", 49249)
    ∷ (codes "TLS_ECDHE_RSA_WITH_CAMELLIA_128_CBC_SHA256", 49270)
    ∷ (codes "TLS_ECDHE_RSA_WITH_CAMELLIA_128_GCM_SHA256", 49290)
    ∷ (codes "TLS_ECDHE_RSA_WITH_CAMELLIA_256_CBC_SHA384", 49271)
    ∷ (codes "TLS_ECDHE_RSA_WITH_CAMELLIA_256_GCM_SHA384", 49291)
    ∷ (codes "TLS_ECDHE_RSA_WITH_CHACHA20_POLY1305_SHA256", 52392)
    ∷ (codes "TLS_ECDHE_RSA_WITH_NULL_SHA", 49168)
    ∷ (codes "TLS_ECDHE_RSA_WITH_RC4_128_SHA", 49169)
    ∷ []
