-- ===== src/Keys/Data/Keys4.antt =====
-- keys/data/eth_keys.go, lines 448 to 595.
use eth_proxy.Prelude.{List, [], ◌∷◌}
use eth_proxy.Keys.Record.{KeyRecord, key}

abbrev pub keys_4 : List KeyRecord
keys_4 =
    key "447651fa500d8e34b398f3cc743899920b9a249a1bae3d3ea1c5583a771f8209"
      "0xbE8e95353911E24A843Bf071Af7Ff4f9630962E6"
    ∷ key "42b5dd923edf6263d4ed4eae29d1b9dabdc8747fcbe87b89e4faad1536d39758"
        "0xDB46bE5a5D22484a1e4E3513a45Ac9116CF0126C"
    ∷ key "4b1786e460519c2e19fee3c537f3e9c97a62165828915f83dcecf6950712a06a"
        "0x2DCFf146635d6d02aA78691b22D28656633cf94F"
    ∷ key "2c4976442cdcefb73c20233689a76378937174427aefca3a09aa612b00b00c46"
        "0xed6aF2c3D89a8bdf17310Aa04C3a3024123E340D"
    ∷ key "e224adc760f00543b6fadb43565ebbffeea27ea0a80d1fb1c741a8c3220f0dd6"
        "0x6B749dc302F12472733ee7047930838EDBFA3982"
    ∷ key "c9471e7f816cb547eda2a42e3d11084e034e343e2ce03fe1958c36bcbe7e1d84"
        "0x81078e019c2601d99083CF59A3F44667634E0f56"
    ∷ key "259760e3fd1a5121d013d8251e53f402f041932a523c3cf23d2e45948d7499fe"
        "0x5B401614e2e7E8Dd754616c11b0159809a4fB756"
    ∷ key "7bb570587281056cc8f0242771e7071ffb262175a6528daf35244ec99e413b55"
        "0xf58bcb96941C1F54148C63f63cB478744BC0C3D8"
    ∷ key "cec37bd7aa85dd52025af9612e3f2bdd7232c116f012ee193a86da6d9413c7ad"
        "0xAF8e1EE4fdE95ba55a079edD77aaA3D76200B186"
    ∷ key "a304b9e68f330bd5a5f2a486b7c239750a4dd9e97a71b0d5abd3246ab3ddfb71"
        "0xa290077bc9E9164f3b622a44d6ddAc7B06E50F8D"
    ∷ key "5d11bde65b937739be55558adbaccdabc66e9204c773e88b98f89dc3665cefdd"
        "0x1629D7953927e9be5b9254fA1cC4Ff9DFb8e26EF"
    ∷ key "633370fd5554d0c7ee333b8cca62586096a3221622f930fc57a78835a7af4945"
        "0x2f0Bd0367D34Bbf0C5d674318B98089dF2e56aBF"
    ∷ key "596ae90bdbdaafea449fe79688d89fb117f9661b176d7a1457df23f796aa3841"
        "0x12D9870915d64d356634e1fF465a5e9318952547"
    ∷ key "fd1eb74d9de76da44618c97289e2232ee28fdd901ff6e313168ed64cf00db667"
        "0xeec4A65D532b70a8ac8F2772733C003D1EA0893b"
    ∷ key "70bae9fa1674a8c4898151aacd52a91b1707f320a1719048e0ab43d964af4f0d"
        "0x8656f27d169725727F0D6D95eC7cbe8B388b5deA"
    ∷ key "e7d9309b53956e08a89544957f09b98ea14acc9e83fb2554746d9f633ca4128c"
        "0x301519E94f97951023Bb73A8E0afbB8B1E9445b8"
    ∷ key "39d66ee0afce0a9cba7dfcaae56e87350990d55e910c93219d5ae226d1a3296d"
        "0x6A5A386e2129D2850c27F64a51f9364Be1eb67ed"
    ∷ key "9d0df4f5f9b344b5409592c6477e75b82b13d604943b0d8a5b44ac5e77a8d274"
        "0x08F3093F648309Aba6b51F3c2c4eAcaD79baf3EE"
    ∷ key "9fb3103d3372c5272a6f2cc953879311aa63ab0e9fb1b932ad485453f4bbfdb9"
        "0x22f582CC9C285ba14fD765dAc0627AE3082BdddF"
    ∷ key "12cf3e2fb797aa97efcf92e895433695c0f4789cd7a80afe25516643ca42febd"
        "0x67b2858d757e74d9e39bd705e16c59F83b194eAa"
    ∷ key "cb36c20e393b58e8d3535707960ee0da5186922e0cc86ebd9b9b11cb1953c46c"
        "0xd11E2af131a61B0e7DA26436Ff0a3918aC108839"
    ∷ key "ffd5ee086df303ae2f550bafb1d3fbf1390e8f3e6b4f54f03c03c9901ee0fdd5"
        "0xFB2db4BcaAaeA682B3a8C3082584203be9EB8550"
    ∷ key "7c45c13326fb3d56f7c2b2a6755aabd9112fc852bc4555c87d175e810b0deac7"
        "0x6931633a8b4300bb94fAe344Abf22c218A150FC5"
    ∷ key "15f9fe825ef67677dfad4603d73bbefe3c3cbe88cb8ac1f7ad1a631d6016698c"
        "0x51E58eBe3218672bbDae45f61a38C4A43407C9e8"
    ∷ key "182b3cac3bff3fee116af1420b038b6cd5b8b0617e38c7482542c5392b9c9e5f"
        "0xa9210980E4fb402601A01E5D62891483339085fe"
    ∷ key "b5c9696c8e14c07c2a65051597136d33477ffde485c292a404049ad2711ca83e"
        "0xE61f967Ed9A82bCd13F74F1Bb4C59B89c6BdF24b"
    ∷ key "051c3276da30f459d902b67270727f1b0c8a9b72e1ae11810a80a497e77818ee"
        "0x91206D4290Cd2F3114dD798bb7fC2F43B19eeA51"
    ∷ key "3a4ac21fa6f5795250ee1f8d1746fc9cbc552f205909867524f44d96d744b10b"
        "0xbCb10ECf41fA7DDC566c18FCbA87ABe237CaCc03"
    ∷ key "a624f0552f6ce44b6fcde4895ff74a28a9a91ecac808640c1f4bc8c5b3b8f381"
        "0xdbf9F258D73F875FcA86946eF290D6679758751B"
    ∷ key "3083ee2812d3937369bd99ea591306a6560b368c372dda31e010f39a880bb506"
        "0x399d7a161F270FB39838fcb312E70C13451C8127"
    ∷ key "565c009cef2751c66415c9ff24b307178cdd9c19568e33422f2f920447883814"
        "0xF7E2128d3d4e58cAC86C5aEd1F0894fD2D482213"
    ∷ key "61caaa7f43d81b62b5561a77a5f49cf4221955d59a7437e362cad97a2bcee713"
        "0xb3B2800141Fd010B3a4e17C6b3243d625F63ec9F"
    ∷ key "b64adc1616ecd8916fe818f2a6c8a0bf7f292de2a0919932e55c88f8912f3c4e"
        "0xdD1c66CD35f5E74F90a9e811FAe4FE36522fC7F4"
    ∷ key "e25d8197adf6d26ac7ea0102f456a4a7c058077a5872fc68b85004d50805c1d9"
        "0x8B62916892AcA7500b690b5FF82A8D94B1C18ee8"
    ∷ key "b1e3203fe91e2ad4cd3a126d95a1ef848048ec4b0f0c2129b1171b20b666f3d8"
        "0x6C0F113b55eF600D53752FB311e018b01ffdd878"
    ∷ key "b107ceca2e3625d0763d0cbaa0ada6d968700ffa3d14909649d425320843f5ce"
        "0x45dEA726E2A0684b2272a53b1D89610BD4C8a046"
    ∷ key "7c457354e12557425d688eb1533b174672d2c221fd01071ebd951123111ae138"
        "0xfc5fbDa2d258d0641E1747491c108F32c9b8cDf4"
    ∷ []
