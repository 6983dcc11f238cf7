-- ===== src/Keys/Data/Keys5.antt =====
-- keys/data/eth_keys.go, lines 596 to 743.
use eth_proxy.Prelude.{List, [], ◌∷◌}
use eth_proxy.Keys.Record.{KeyRecord, key}

abbrev pub keys_5 : List KeyRecord
keys_5 =
    key "ee59500cb0869f97d42247e53a6597095c32118b3deff868a3fcfdaf28356ef5"
      "0xeEE4bBeCD03793771B1d9420506753e5D980E0fC"
    ∷ key "dcd16dc7f233539a3568c276c5a0deee9011598ed5aba459dc0d4c9e1ab82ef2"
        "0x998Dc123A1129B73B02D1ecb07305C601718f5e9"
    ∷ key "1b03c785d8a394e84d206ab88b324847fb26dd44e580311a249b51e3b930b029"
        "0xEfeB1F73cAC2BB51A7b34C02aFa518949DFF3d03"
    ∷ key "aa6f0906987ccb2972901289e7c42aab8a1b30645ac156266b1d49f887b6396d"
        "0xC1904ffDeEAD1D033eaA045B12FEe3b1bd50f907"
    ∷ key "cfe98e7d1d29cb9c809925d50ce2740873363d5f342415d1747bba69e4a12848"
        "0x905FbFAC0fdF1A5d8bfd8097122E8Ff57a513A08"
    ∷ key "43eb930b6b39cf3535cedf07795f3e29ba22cbb993f5b1eb6142048488127411"
        "0xa2C9e4320397870617De7BDD2a1b9a68A37525eF"
    ∷ key "df3e74ba4d97f6a3cc1c5ab50659a243f56914be7b5934089c3c9ec7fd3cc076"
        "0xE89f51A63739C80f81ADa54D458FCBCeBEfA0138"
    ∷ key "8ae45cb34772770d2bcf0e7bf296e57398a91a2df1601e9b2c33b014f99899de"
        "0xE99330dCD8385307AB899E0f9d06D739DF648e98"
    ∷ key "c7cfc88f1c97204a191f227f7a1edf93f568f5b4e53e3a2b88b33e7f9cfa27b8"
        "0xB47D3B642E06a04dF4f56145D67aEE0724474170"
    ∷ key "ee4d5efc8c4646309f319b17a80864aba8c7c343a9c6a1c2e9ecb2b1ac8abd7f"
        "0xA79981a1E51Df67E1EaaD399d7e5767b033A6625"
    ∷ key "b83d6ab8647ad5bdaaeab9cea3a34871330bbe157f927c72256cae8ef18b9c1f"
        "0xdF998e52A5751cf67B0aEeBB1C05A59EebdA13C6"
    ∷ key "fae1dec2b55d03c46eb61043235aa3b1844a8e785f544d0bfc5231366714bfc4"
        "0x6dEeeA95094c50dc07E7247be801C00d8Fd4Dff0"
    ∷ key "2496410163230b8ac466eb033a9a0328181877664a25a12bb37121f1ca93055b"
        "0x5025bF6157c26CeE59F8d341ac49d3817DcAA5a9"
    ∷ key "757453f28ba0c7980641287caba5177db3001e7325458bddee503ca67bf71928"
        "0x673D0c644f3340dfa17FfFB7A3bfA14c340c7371"
    ∷ key "b6099a8148a644f4cefa8c47cfd677b26440548d1d3470a4aeb5693aca8bd971"
        "0x40F64AB6c10A31d4657080B8386cc6c7a23bF180"
    ∷ key "69de25dd313cc0578bb2e994b73ac45cfe2e5e177851d015808c08f278224af3"
        "0x163BbcdECe1Ac3Ade48a532923d547294DC3B243"
    ∷ key "0db14da62994b69b1f498ee8337d3027a091291b36f9a05dbd0607d24c17d0c8"
        "0x1cE80A0978dD3d91052d9237155Ebe5F9e750ec2"
    ∷ key "6222a82b91c6bca1e62c0c8cf91860e3f2d5bd5c74c597449910e61b8f56e15d"
        "0x8c7B87C2b588128EEbC5D7C8f72366Bb60b08648"
    ∷ key "bc638d2402c8ca6a1ea84e9b1f3cce9da3962ac5eec47e53f972f81ae4993565"
        "0xe1c6580a93B17b3B8d539051dB7abC704984C327"
    ∷ key "05a64d9530587e35b9dfa29b04f29be23ab38795028a58bc2f28b5357c6aa874"
        "0xd05E8b9d5b65ad9eE35012a4beBb6F6dB998331B"
    ∷ key "256e3393310b0c159d741279ef04e644c7847d9edc5dcdc3dbb7b1a256963efa"
        "0xEF49B4CeCAd16b31210c94889de105472974ECD6"
    ∷ key "505b600bd1764316f84bd7454e8f47336e4202a3c3f7175c6654dfe27b8a2603"
        "0xDbaa7071519069609b4353cBB360d9eD41C18E7F"
    ∷ key "398bb7de34b945f053bef4df0bf69983414055350285d94ef43ba608f5c80c0e"
        "0x9359b1cD00e27C0D647804F12A0F6597a290735b"
    ∷ key "15ce019313b3c1d2977d3c85bd40d417504a4fda078c6637184ad9149a307c90"
        "0xD5DBb74F1B89C6b91c9e8cE09cC3b0222e42fC83"
    ∷ key "89205d04622c3cd8e14fddbac90bfcfe5975d11410ffe636bd7d2132d4b0563d"
        "0xB550dAF102D1A7403520dB952A05f9a807d48449"
    ∷ key "a1c3fbd908970deece63274e1b54c449b35735f9415bc4add16b2a0b4ce237df"
        "0xcb3011036349e38c5dEC566A1972D59f1d6471Ae"
    ∷ key "59383627211d2eb7fb3d012fa39ad7e838591bbcccc7e65d78819bebd5fdeebf"
        "0x95310DAb34769A7eeAcD5f40C8C77F76A6e41dB7"
    ∷ key "671f949571e13c9386994376576a26ad1a97f610eaf9c2072b8ed0af47b1cad6"
        "0xC71728A396cAFb8aF65fF4C462F889CAd8bCd531"
    ∷ key "7483555bda62b28c992b99869655aac209f86811673fdf6aaa9430c37c104409"
        "0x24f315aC2b249e4dB8A7F3a2C47626318884D58F"
    ∷ key "e2d3ee7dc5291bb1b7b63de472b2e7139e8c3b2d47ab4cef0b91246cd5d5896b"
        "0x7a3F6DFACF4E56194A962dA9964F286ec1D60A7b"
    ∷ key "2e179201b81e42eb7e0f25987aa71893b3331527739ba46953d1afa57fd6d14b"
        "0x4E1c6EE51941C3378B1065bb65aE8a8FdF05358f"
    ∷ key "a91db7b0b9480d1835eb1946e484cd0b34611f580112a3ed36d86ef365771b63"
        "0x30CDDBF55FeAF9557C840cC80E42ef9a8e11A153"
    ∷ key "23bde5dcdf3034e58e766f1d6cf4271150088c1bd259c61add7436a7553ae26e"
        "0x626De66a99235BA52fc382816a4995A9ea6F4feB"
    ∷ key "37a1915f2c052e1723bdb4341e755a641529958343e43a97ca2ce9596ac8cb9c"
        "0x9574B8309652A3730bf1D930aFFd565161cAd0be"
    ∷ key "a92c015dda1abdfbb3c32774630c98ad554a4dd226450f2fb73ff03c91229bf6"
        "0x03dA95C601CD106175F5082c5c04fDFAc1e382C8"
    ∷ key "97f019693b02d6b5a0ffa5348bd053a9376df6cdbdc542dd903b55e4ae229f3b"
        "0xA389C6e34039b4Bc31De72C18A99B68CdCdb1D03"
    ∷ key "2f12d5b246ccbd6f129918ba40db92428a224e7b9a8c095be2f3f2e1cbc6864d"
        "0x9669f6147F7e4579684d8b48d063f8C44c629A3D"
    ∷ []
