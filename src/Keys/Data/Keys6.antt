-- ===== src/Keys/Data/Keys6.antt =====
-- keys/data/eth_keys.go, lines 744 to 891.
use eth_proxy.Prelude.{List, [], ◌∷◌}
use eth_proxy.Keys.Record.{KeyRecord, key}

abbrev pub keys_6 : List KeyRecord
keys_6 =
    key "a933d598ba436f5fbdd4467535826c71ecb0c7b1d435dd8dfc518666a1704cae"
      "0x619db3d41A3a26FE97ee9b2CC988DD3E1E3FFfE6"
    ∷ key "bea75bbbe40a3aee6cdbd3420e416dbbbdb4f4c65a02b4d983e5bdce48840955"
        "0x5615FC25c3c748E2f2d770A4a5FE7d6182aB68D2"
    ∷ key "43e00bccf55fbe94a6bb6535cbe71bcff6d78bef5bf08ae6f064563ccf268c57"
        "0x9931262a8c2d1345E94960F35d19f840e6A260a6"
    ∷ key "73349e89c4893aeb7960c290bd4554da578a0bf20a8558c435634690ba921acd"
        "0x7BA23953ba270a96453512A8C1D3320f5223241b"
    ∷ key "1afb8a3d2de39eb46fff8fc7c2e511c8c29e07199d518b6fb9a5ed1e2db44051"
        "0x7311256198600F1df637adf8EFC60a057D7F702F"
    ∷ key "f5637214f76f3ea9d58703e7cc513e6d74498aaf371a2a97c9dc10bb920108fd"
        "0x68f8e110d70448DD95354775A5476728ea0Ee8Fa"
    ∷ key "a4c49cf82c63f659f34913c311159da12e819c3a53fc6a6f80b5b4f6f9f25540"
        "0x96D1D8dc83521509C708c73e860D2734f12A2F1B"
    ∷ key "2e5293150384f071c2daf7c853624499fac14798c130eb70bddad21a24396ce9"
        "0x28949aB8d6530F6Bf86d337995658F425a2A205D"
    ∷ key "62d9adf05a313ea65efb830411e136c39976d0c809cab499dfd0f2ed51ef7d0e"
        "0x397ca020d39c234FC836eDAC7D63123C958c2928"
    ∷ key "5b8e4f5159b38070469f41fb141787e71dd1a13d22e78afda07f66b5cbc100a7"
        "0x6Ff763E84d22b9DF57B07559E51B652206B54710"
    ∷ key "84ae7dc0efcc9087de3001716a5fc31246233353a9100ae3206d28875d7fda07"
        "0xBc62BE7cc53f049f443614f42800D929cDE9aE80"
    ∷ key "ff3c19e37fbfa1eca55c55a13d08cabe4f385919a61f1016d441fd1479cc0d0a"
        "0x624b3A6E430397E47DEfdaA0D8c1C32e00cFb517"
    ∷ key "1423684c15a2b86af91acd4d0958a903319a73a5ce80c242874e1f1a8e71eeac"
        "0x17d38de449690385b6888f37c5d70c8220d24692"
    ∷ key "8cb17849f3a51f830d6114914b421ff5f4821141b518a7dfe34f745b233c9870"
        "0xfC39ED728069B8dab12e8e0810e3766416461Bf6"
    ∷ key "f33293ccff91c667b84be72eedaaf1bc7ef275e40f27bff427133804476087f8"
        "0x82A486d10986c2E2E619Ec9B2D678C95eb3cD335"
    ∷ key "40ba026e1fc7bdeea6c8a35c93c5d5163598c23b6fea7a10191a4b8520575010"
        "0xd7A44025D331d5dA09bb326ad3122B929F5CC0CE"
    ∷ key "6aa572e77cc46d75d98dd16d0b5be910089069c41574c1e700f9e313e366a3dd"
        "0x5F5737B71694BF192c2Ad52c534a91b9Da5746Dc"
    ∷ key "b74032ff151ae8b164bcbc990ddf238801588fada02c57bbfa46a3112fa2e448"
        "0x87fE2c281396379d62E50FCEE58fe119484653c2"
    ∷ key "65b25bed1d7083c866d062d7212dfb425547556c20ea7bf215a1d827d9c96bea"
        "0x16895f28a89bDCAf2563196a977EE57E27C75b8f"
    ∷ key "20b9316d69b4afe32052763d0835c037452512a9cb0173897c88d4147680327a"
        "0x9Bf74cD38Fb41C9C1C6Be5076960AC12d98aebfD"
    ∷ key "8e6f6fc7801e211d9da3c3c1a85d76107ac5fa7fbfad57ce80d1d914efbb5487"
        "0xe8149Ef7B694D6f69F6e5566807a18793F5AC8Ce"
    ∷ key "52332513a7d5d7c6e634f8ad104b21ba16c58da954b89ae072e51056cc1adf53"
        "0x09f8C9813c6433395841b8989de32d273B940bdc"
    ∷ key "1ee4502159beec2a128c60022ed5a9d360aef6e42444c87e3c088a420ce497e5"
        "0x464c716D9F2c6D4630CddD4D31F9c467E3D69aE0"
    ∷ key "857e44cdfe5921b824dae569c3ed098afc0c4de7bdfecdbd55afa0f0e85c98bf"
        "0x8BE77661E1E04593eAd382542fDEB920e0e9aea6"
    ∷ key "9c9b5d5853151b1584be20c262f852f977e0e1fe17f4c53dba1e1d876c26db90"
        "0x92c175dec186Aad5caA1a50D0F8ad7f6D783e255"
    ∷ key "726419a3fb6e3124b11fe2f180c680ea7e14556dec3167a60e5c6df1a9e51fb9"
        "0x1f909fe4322bE2803cB5438C3392ACA6999c62DA"
    ∷ key "74727210318336bdeeea5a6bb530424ac73e93c295cb867cfb7d9e43bcbc8251"
        "0x54E809Ae37ccf80eb3cb7b5d0e13668EcFec2f66"
    ∷ key "d6f4121107bc0997a265fb027b220cc16f6cb2b543ce1a2b3d5601aed3052a03"
        "0xcC3fA3d7DDf44f934CBfFC445C7DD7eFf6B84412"
    ∷ key "3d37f4cf508a5eb9416868ded7da8a5a7e75274f166ab6154121f09120371134"
        "0x0D8128a0a736451511735A98034563C5C3207ffd"
    ∷ key "345402ca48dbe62fa92fb981bf698b4b352731eebfbe974642c154aab304c802"
        "0x9e5570155345EcD4c641598eE69c533c951b949C"
    ∷ key "5992cf8e03d4d61dc7757dce98c6ff82ba4e7ba4e8c2f880194187ba5cb831d5"
        "0x0Dc1D56405B31E6B0f410b855D9317BC51862Ad4"
    ∷ key "6225b6876c959c8cbd6b8775e7cd0753e194d55d1370f1a66eb1e34a5bd31cce"
        "0x98fF031F034EDa62920B947270EAf9083157d6fc"
    ∷ key "32af8edb80ec42d7900bf4ada028a70f235b0b03f341921f18c0eafad9ed404a"
        "0xc3aA31fF73e6CbEB83C2f151632F11c2c13F1ae0"
    ∷ key "488fab2968b4ecadb29338e8ef3b53fdda8898d1f458c5ca513ca00e5236b52f"
        "0x39A0f3039FAbbEdE181467E6920fb796aE984d1D"
    ∷ key "d9aca7dbdf75ba7aa5a4ac7d63cd8dada96c5839e958a2c4f0899aedd1104f2a"
        "0x320f9DCdc4BB59381bC9d012971c7b9713F63f7f"
    ∷ key "cac12ff1857b6b7cc1bb8948dc9e8e69fbafc8c7c0caca137243aa4f2930f79b"
        "0xeBe50511223aE3a68d5d4eE316bd4aAF62e92D20"
    ∷ key "a0c81868e7b7de2e2a6ec1efb6707bf73a287f893c46ed8991ea978ec8657f09"
        "0x4435B143E66A18098A3f7f07E4863B55986fC0d6"
    ∷ []
