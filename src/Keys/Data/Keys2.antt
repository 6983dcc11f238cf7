-- ===== src/Keys/Data/Keys2.antt =====
-- keys/data/eth_keys.go, lines 152 to 299.
use eth_proxy.Prelude.{List, [], ◌∷◌}
use eth_proxy.Keys.Record.{KeyRecord, key}

abbrev pub keys_2 : List KeyRecord
keys_2 =
    key "43cea47a6d4dd61e0f47b61ed523c03118bf06789767c184f7c3982dfb8c7cee"
      "0xf543Ce2B69b676a23aB0Ae2E2336dcB7f5EE7A13"
    ∷ key "c1eafaebf2b0990649bb5d315aad1bea274a0abbad45a5c77b554f654b78178c"
        "0xE66007fA4d247fE7d5E0790d7e5E036b42Cfa224"
    ∷ key "cf6293d0b6e91be8f68a18d741e515e969c282a0ea283471b4d9ec9acc14eb00"
        "0x4a513dAbBe1D80584D706937BEa7C059eF7658b1"
    ∷ key "b60840fef7c556fb92648bbeefc47ed39269ffd453aa3259fe0a0f0c9189efff"
        "0x0285d07A9b6101d5699E3D16a27B249A65Ca089f"
    ∷ key "8dd5972064bf4c2a60b1b6d7f0317d10fe00230efe974b3fd48c71ab0a9443ff"
        "0x50dcEE180D7cD17A896BEEB6F7feeEaE905bbee4"
    ∷ key "bf9447c44b8db176668a07575729e3bd55afbaba6103a69d86b8f5ffe62f1eeb"
        "0x79B230E8DB3128d9f2A58218F1f46f0022b37Dd9"
    ∷ key "2b39c258f4caf6bc76ac73e514330d75908750774e946b0b58a099f9b7427b78"
        "0xefcAa97425bB22049dd0e472f0A5a6E1B1673884"
    ∷ key "53510a3eec65f04d223a82b6f29b08d7042b6fbd95ba2364a957877c4fddaff7"
        "0x5C87d2E70219fdf1724cE935aCf52A1Fd418DEB9"
    ∷ key "bc273230c6f4b96b2468371945b54faa82f06a3eb17dcc89a87ed3c6601a0939"
        "0xEB7B7A83D3Ba56B246faCFe9A397d35CdE31Fa4c"
    ∷ key "1da4949ab1a7718cc8d94df57df1ca8ee554b703ae56bf06eb752267c79fbfa5"
        "0x1bCD9C6a9d215F10af6f3304fa0D1B87c19A78bb"
    ∷ key "680d7f2694adc6c3debb5bcbedca0d0b9b2d5aa2c300c0efa8021bcda2ffeaa0"
        "0x93DD83534805f3DB341eA77c8F5Ef38a79d005b2"
    ∷ key "90cacb95fa60adeceb9b21f4367702360336632cafc6a7a6afaabd451fcaeacd"
        "0x7679DABE93dbE738f3126925F3aEC5168113B77c"
    ∷ key "cb1cfbd787a8d5f81d4a5d2c93ae6586ca79dc8ab0188b93418efa2c4fffbff4"
        "0xe51090ff3ddFEDC8C7c52E5a7A560Eb3186ecb94"
    ∷ key "0fcb243a3493bfe4fca48734934de3f78ba3c43b2fdfed7a5dc5fc9fc8142b55"
        "0xB3cDb1F20bf4AE14dD0493C3BD82B960Ea38e3de"
    ∷ key "e45b637c6ad5932e591e6f4914013e12cfbc5c20aba6cf5a4731ce8d874b41d4"
        "0xda5758c9aa283394ccA729cE23Ee30164525D390"
    ∷ key "963cc598e18b1185f800af8b3f15d7e404fdc22cd493feecb9b75cfcc94c6974"
        "0x738C6B1C7099a94E0A0c88489aC230376b9D8dF1"
    ∷ key "2d756488e3bf6d39b4be4ce6d59654dfc4aae441d2bafa5bf16dfb40a1b8fad6"
        "0x65d2E3a48b58270D51ccB41107BF05d05e232A5a"
    ∷ key "4600d33b5eb5bd9ceb176ed4dc2b65a2ff60a1f28c94982eea31ced5fd022642"
        "0x8E58214834aE3b6CB907fFB78aF53e8fB0d6eBaA"
    ∷ key "d1b51940364c6649a5c8f7e5481a792e0fe3c9135c8d912411bdd061ad0c470a"
        "0x49C44478c0eA22367a11bFfa80171596A66B8D40"
    ∷ key "be31d1bbc053c81c1a29239e49792aa169e3f0cc5ddb056f1032149e70a5c153"
        "0x6583A82A05e8aFdD335B63222E769Ee902Bb3d00"
    ∷ key "6a5d2fde32904a9ec83bb40e695261001af3273289ee0a01f6f9586e60886169"
        "0x9C3D664f8f4f6d03fB07F89DC41222d3D6Ba6cc4"
    ∷ key "c46ba56a1e29c0aedc86772e84db663050c34b9d7934f04acb8192fc95f28e40"
        "0xf83a405B64c3849DcBdf68FFF6Ff52D45Db1A61C"
    ∷ key "e00473a3352608df65f7048200d091227e0704f3ebe712690ce765950de27804"
        "0x97A76d81C1C4d6A10c83b334B532F73fF3DB8290"
    ∷ key "2521ed73f6f37d6ac5e914cdffe4550f79f5d5abffb4a91d9b12785eeb610e80"
        "0xaF76883cf8FC10C81d27F45e0691d8C8610F514c"
    ∷ key "773525198a79c2a995ab701feed0b71681198db18f3a045e199130aaec7060c5"
        "0x4c04a720716d87f01751bFA61486b51aeaB0CeF5"
    ∷ key "b8b5227f26b7c8b0456faf6c2846ddf6a9f3532309d5a29b322964e7eb39aabc"
        "0x6BE8f1414F13E327044df8301aa86EE0bCAcA572"
    ∷ key "3d6ccd55b236c6c45434913216da33b6adb5658923395da1e8375e302db32488"
        "0x341f962B6935758ca330B6053c285c8AC376010f"
    ∷ key "d3042033b19fd3874b75a4393e21b3bb1870dcce4c6f91896671f8d75f1281c5"
        "0xcb2eaaC4C08ba3D2E732D0CA850452E5b6Fbc49f"
    ∷ key "dd16d78ff352e65b8700546deba6d2b1418c3696573c08608d9f28e32301aea8"
        "0xF80A20414ADC2153fe342Cebdac5eaFdCCe94F13"
    ∷ key "c9e94a055e5c63e99605d3d1780becfa071955d1f76a854bce5fa41e3fa8bdf0"
        "0x9DC102509b6c20812f3Af30C36188D2630718a75"
    ∷ key "0f0c8e5042c4f61e2a2607bd76d8ebe32fc46a5c08d1c455619c34a667db9012"
        "0x164E6423F74d6c284Bc3829Dd0283A53cEbA9094"
    ∷ key "af7e1eeff07a9e7d10026cdafc8e6d58202ced82737af8ed05c0b1734a0afd21"
        "0xcBe1a847767d6fDEeB160bAC9AeaEe68C3De9e42"
    ∷ key "908cbd72cdff0528a3cbdaf11f238e56609ece6a36ac8dd2eac1575f6ea4ac32"
        "0xD66B7FdAbd495f3216E69cECa4F48D07bfb2D4BE"
    ∷ key "e0442cbc4714f3ac9d2c78599613f31ead9cbe3605ee05bf1cb44d701da4b8a9"
        "0x672055edC989FFDBa0B115BA925325959412b420"
    ∷ key "ac92833b5bcca86237321e36fa61f58eb33dea5e9c9fcf7cd714cefb734738d8"
        "0x39610Cb77d1718598d08d8cD036B2D2e4d92836E"
    ∷ key "5316beaaae3d225b45659f4ff7fb77970d60973dc3ca85535fa6edce71cc4a02"
        "0xF2E74155D3a756bdcb8d0658ae2032e2EC6A8e30"
    ∷ key "7b307881c7cc9fd8374aafea309d85f955b53e21d700ee3132d2baa9d1f3899b"
        "0x41D6adF7b6cc0C058E99dD022C7DFf19A4968405"
    ∷ []
