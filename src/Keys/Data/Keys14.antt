-- ===== src/Keys/Data/Keys14.antt =====
-- keys/data/eth_keys.go, lines 1928 to 2075.
use eth_proxy.Prelude.{List, [], ◌∷◌}
use eth_proxy.Keys.Record.{KeyRecord, key}

abbrev pub keys_14 : List KeyRecord
keys_14 =
    key "53d7b82149d0f99d6b6a10e531fbf71262928343281bd7f27cceb443da81ce8c"
      "0xb499085a12c1E795CA6bf50Ff7dc7911d4D31459"
    ∷ key "f0a54d177265ee7e4732ad11abe3ce3f5097b1109733b5acc42d716f22e97d86"
        "0x3804F1e64A4A4005F4cDaa11174c70639A15Aac5"
    ∷ key "bb188a79d5c90f53d9902428822d9d3c20d7aae8e06a213603a5a9864e714a56"
        "0x184F72d75Cc60f8A9862b83273ca36D2D0FB3dA4"
    ∷ key "9125ecec20c452076f78f379756d2f12fb8229bfa25d879d02850ba59ac3a65f"
        "0x88A592B1e9EF58079F7B728499165CC4bCfa5F5b"
    ∷ key "8d1610c6d3269f4097c2b4761a6d1f00c7dfeb7403d9c3a0ec57ae9e2cc81dd1"
        "0x36842e290f8D2018CE1cf73C7C0a204AC1864ff6"
    ∷ key "4bc58891ef3f560624371a9740579f777fb431eff07129b1bc3831f2fc37a8fe"
        "0x0A0dEAE66195F2AeEBDe159D7557f66f3F238a5C"
    ∷ key "ad9d76b8169a318b24e5249194e9e5c41d626f8ca79edca8369c84f97bc93b52"
        "0xF792DEF56C23535977678edc33593679725e22bC"
    ∷ key "9e0c10b9d520a4a65ef8246ebc1061fff1b62abb9b97ad967ee7ab92faf8b7a9"
        "0xe4d02702B5fcF9C93d77b47db51D6a7B07FBC261"
    ∷ key "6d06022172dbf5de2fb741e9f47cf445fb72eae54e868935bbb591dd37fc8ab7"
        "0x69583c2858c223Ca8f8832d77E54755f0643a4c0"
    ∷ key "eb0872b7eaf91a59f9dc463c9b3874cd4ffee760955b99d1d981b19503e7f832"
        "0x9Cce31E30859eaad72c03A8Af50fF65AF7FAd3E0"
    ∷ key "4bfbc50187457849277ae92167f9b3257143c44c9e866cedd6ce11a3eb5b8bc5"
        "0x164279cE84121Db2530Ef9f846ab629F33A5fe6b"
    ∷ key "081527c4502325e729207a8646e396cc5e8970abe8033c27485bf88e50b98302"
        "0xfb8CeDe761AC87Fe6494705A8525f6176749A032"
    ∷ key "5ede1428df4c8286f4d3357bbb78a16c049eb31aa2b28a9d7959a85f628f9764"
        "0x695174Eb403D14450b0914b991909dD450388B36"
    ∷ key "9f1f9202c77850fa3a81db9408e53a7120400a5f3eab42c109cd94e2bfc27821"
        "0x52e948eddEaf160048d0b8c131e4ea75baCCAE56"
    ∷ key "5fbf7059f5680ee9dc151832d6ae496c12975f6af35854163ebe4b9069c7542d"
        "0xE0842b64514110500124e624aafd05762C572862"
    ∷ key "222a64b879f3ad33488648e362fdda1402e262284435b5fa2dc58a813469b9a7"
        "0x8557E1028772b33b2281d063B0269446533883D3"
    ∷ key "02fe037cb1a45f0770322bd1cabad6092bd43536c6b57a37a328ad660e23b864"
        "0x95fB23AA50D952FA4ADFceE9E216211DF78530B8"
    ∷ key "92bf863b001f4a44fa636fb8e3a1e682440cda6ac75812cedb5028bd3ea3a9fb"
        "0x43e5658B3E27EA98A68d8Ec277df75dC06484807"
    ∷ key "549d01ab343d95b6173726093d183ce1f15f1754457f9519a8788809a0320dc7"
        "0x50e57910C4633C4a6D67DB215f07A2c2440aD834"
    ∷ key "33a5734ca5a163f1ce7d6a7abdd90692f7d03cb3aa86f19366d95dc97b504417"
        "0xFb8c854ae2705bAcb9BD677a65448E1F33562756"
    ∷ key "b34d3acb7a4a7f971d50cebe64ed81cb277e00df774a2a26a339f651f67d472b"
        "0x37f5da951365049231c1A031378fa797Dbf05D27"
    ∷ key "a47660c5727c142e84450b2bec1e51ab40239e2de36d80b54e6510e550697571"
        "0x5B483370385Ebe63d9F9FFC95add546B18b8E525"
    ∷ key "217223c074de1149876ff91c9909579473d37843cd669d5b50f956a6d2bb1d00"
        "0xb520e53C36246EB69c6FeF17730a365Bb6cA1B8d"
    ∷ key "0d432fbc511e4eb24e44bd141511c74741ff9ba1066caa926934fab6459f1633"
        "0x02205a5d0B2F21D4aC5142B79A5dC35f7d8Cee29"
    ∷ key "bff94b891c2d82a535e038955fc46b1ce122ac51c0abd19809a651e1d6dcd962"
        "0x5492335CA005004FADcea1354B3Abe18BDE8536A"
    ∷ key "5391db941f7b3d1f2ecef4d520c0e46b3fa2635ae6cad83523fe15e12bdd25b3"
        "0x9C3204A5c74a83c927183DAfdf67487E9B042A71"
    ∷ key "43fcee2fe4c8322c27e13ee32cc6e9c118122111076e6ac2e6810d33b176bbf2"
        "0x793514d21c1006c675118b2BCEa89ea5400D5b04"
    ∷ key "d70b79762216237b67d51e7650c8da3add6abee8e64f00a64ee27c9dc02b0484"
        "0x71Edf7e6Ae9fEBb33f9A7B4668CFed850137Ba74"
    ∷ key "c078b1aae9e6fbc2fc3836b92554e581b13002ad21baa6e0142f7da62184adac"
        "0xDBb65dDa794509Dd648641F60d4a36efE138272A"
    ∷ key "56b6520e43b530e1da02274079287dcd5f882c8f3e9885d41389dad94da69b18"
        "0x86B24eD618Cf6869b12c531288C174210075ddc5"
    ∷ key "8334cca6b3461218819c7e78d1bac29bbf3dd37ed841dc838ac4165b2ea86565"
        "0xeC62A1185544589Ed741f0c715F5A2f5014864e1"
    ∷ key "fb864e41198257c3b70f2ab0fc615951d4781aeca6347f9ecd7e0bd2572303fe"
        "0x38D4b9796A37f2f0965e555dEA81907a33654F11"
    ∷ key "ab4193dbeb71fe1a228d79f6dffbc3cc0edcd5ca1c7d97043419231d404dae91"
        "0x8280ee88D4Ddeeb99d57976271e8Ccd92fF121DD"
    ∷ key "5ccd7714804faf89ecc5bc8ccd7c032652b2d291c5c9c87fa6aed847c7254b30"
        "0xcAd62e99Cb6190Cf2EA702De1E8c077E8858cC3b"
    ∷ key "ffee8b141249d142428db9c65a1d4ee5974dc142f87314a9b24dfea980270f92"
        "0xA2A5a1afd08021526988Cd04F831A3f490923E52"
    ∷ key "15a16f17a0be6bb8309e7168f624dda65415b252719a2d8d7377b540b85cd2cb"
        "0xf67cC1a1078234BC71A08cF1c90e75f56224defb"
    ∷ key "e8c6d3f22593b87554c10456263ad4988280f663d799e85b70a1f6c030b3cc5e"
        "0x924C4b9fb924ca327b5Baf5c79A4FAC7cfBE7d03"
    ∷ []
