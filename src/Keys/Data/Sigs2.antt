-- ===== src/Keys/Data/Sigs2.antt =====
-- keys/data/eth_sigs.go, lines 152 to 299.
use eth_proxy.Prelude.{List, [], ◌∷◌}
use eth_proxy.Keys.Record.{SignatureRecord, sig}

abbrev pub sigs_2 : List SignatureRecord
sigs_2 =
    sig "0xf543Ce2B69b676a23aB0Ae2E2336dcB7f5EE7A13"
      "743a8c80fc0755356db7c9c662836288c7e8e0f5f6379b7bf0d5bbd754d901b73479f206a8de0be2f75bf989b8991d5bda6d07da9b6a1bdcc9f33a43f1961c2600"
    ∷ sig "0xE66007fA4d247fE7d5E0790d7e5E036b42Cfa224"
        "601b2da8bc61a90f4babe4b2c28b49bff2d2f9fa895d4b625db276b59d7cd80c24f088cca3f97064062794475d10bfe9727eb378ec23a81f624f1e114c18b35a01"
    ∷ sig "0x4a513dAbBe1D80584D706937BEa7C059eF7658b1"
        "be33b11a347f02e66b995f882de31e850fd24939779f73140e9097ee2e809e4c1d6a8c892f302703e75abbb3d9ca7ad6d444e4a7e397f747ef17a8da5ccde77d00"
    ∷ sig "0x0285d07A9b6101d5699E3D16a27B249A65Ca089f"
        "69b1c5e6a56cc86ecdea95bc46a062807d8c32c7738ec5245178fa0a62e992181b91fe24ace4f2e2458a4a0d3bb259227c064aad6d108cd2eb296a98d3eb983701"
    ∷ sig "0x50dcEE180D7cD17A896BEEB6F7feeEaE905bbee4"
        "6133c6c1c11f1a89c85d2fa5e493842755386ad6246e699e77d7ee3d7df9daf20506ebe1c97841a3c7e33a4bb31d2ac2d12e885eda48ec1c2b6f98486e44b9fc00"
    ∷ sig "0x79B230E8DB3128d9f2A58218F1f46f0022b37Dd9"
        "7bdae3172aefabf7adc8c0b2707067bf7d9de514f89f2a75344a4bc08ded078a37b4f341d00a5ee85016997352d0ffe1843571d0bf36c12b51581af15648434100"
    ∷ sig "0xefcAa97425bB22049dd0e472f0A5a6E1B1673884"
        "b9b403280a2ed114d567c5f0bed21f7c8d597b200aed930efd040b59afc8ef5657b8019aeff109f54e4027eca7ee83ec6c240e801cd965935f01c30acb204a9a00"
    ∷ sig "0x5C87d2E70219fdf1724cE935aCf52A1Fd418DEB9"
        "1ab92b3f86bcb93a8029789a742dadd9eec17d4895c3752a60a5089cb4aa6ca721da777b95369f135c1076156fd2b4f9780d5afe680b99fee9eaf8a3658cccfb01"
    ∷ sig "0xEB7B7A83D3Ba56B246faCFe9A397d35CdE31Fa4c"
        "a9afea9cd000b37ee8f19e37901a7ed10949401f6b75fef9e9a498c33835c07c0f97fb0e9076794c04024f2589d7b38af97777293ce41c1ab16c4b90069000e500"
    ∷ sig "0x1bCD9C6a9d215F10af6f3304fa0D1B87c19A78bb"
        "f30c5fceaa13dd0848293cd09657a336519cc537dc176b4cc2fc4cea4b9883c1130d3fec93278ab7051ea21ab5ab56c973b9bcc4f63d759fe1433ffb8e722ed101"
    ∷ sig "0x93DD83534805f3DB341eA77c8F5Ef38a79d005b2"
        "60b29f3a302a28523b30e8a68c80857b750fd95b3f60ca0a9c477a2b68afa1653212bff356ec35e908f4d4b55ff69b663cf4df757d46d0386f7fda2edb730b0400"
    ∷ sig "0x7679DABE93dbE738f3126925F3aEC5168113B77c"
        "54bd510b0ad6821469274f07f326ede72506e445478b555c9de8496222dbdc1305104e45d67b2b0e87ddd5811629d4874939606f3766a21b10bb0ba1ced153a201"
    ∷ sig "0xe51090ff3ddFEDC8C7c52E5a7A560Eb3186ecb94"
        "4669e054f4b9d597437360f9e67ca6cdb7532b91ff6eab189619646ffe0a19282153f40a56001f2dfce5282d0ad2a0577e860dc2808edfeaa33d8635b239292601"
    ∷ sig "0xB3cDb1F20bf4AE14dD0493C3BD82B960Ea38e3de"
        "885c0f151e75b7fb1ebed32a67a4529ab2c32fd9c5d4dd4a2e12aac06853c7ca23154ab55afe586ce407c111f58448d00e393c39d24057433ac4d824b75a1d7101"
    ∷ sig "0xda5758c9aa283394ccA729cE23Ee30164525D390"
        "0e0e3a8137e2bcfeb0bafb9a0336ce93dc6bf8e9d746e4dd2de4a3cd299b09f7598f95139c5e461f3d9f5ffc5ed0a74f5d8fd8b11448a8677f383121621d345c01"
    ∷ sig "0x738C6B1C7099a94E0A0c88489aC230376b9D8dF1"
        "1cf87753f4d97572685056fc8253ac7e5ede55f715c992428a386ad78d2195ef5b91ff21c7f4fac5044fd440ccca2f787ccd93f002873d9d52513b26ece182d100"
    ∷ sig "0x65d2E3a48b58270D51ccB41107BF05d05e232A5a"
        "034246321cf6a302d8aa167ee6ea617d35b9f5acc09436a7a676f430e3e5dc6a7412e079ecad0d47a8defe16f1f16d097b4a33cd7b749d7183db132b93a9226b00"
    ∷ sig "0x8E58214834aE3b6CB907fFB78aF53e8fB0d6eBaA"
        "2fa6b50589aee862fb507e45992f26c981faf2ce1bd91470484ba50867d335a8489396e23eb331d68724b71a91d62fbd899c416b89da38f481d9737a8a8e771101"
    ∷ sig "0x49C44478c0eA22367a11bFfa80171596A66B8D40"
        "8195ecd79d6fdd963416d4ad2513f86d0567746b3fedca29e53a97362e2466660f095b48d9f4b1fcd90cb9f5125424d666a6da92041d49460d323d92437abcee01"
    ∷ sig "0x6583A82A05e8aFdD335B63222E769Ee902Bb3d00"
        "24bfcdad373af067772315d51c8de7e8601d3243d0da0109379ad6e040fc3a6f60f1e47d61285b8af21f0ca67ee2645e6952fb566e6306c85ffd3260a5aa38d500"
    ∷ sig "0x9C3D664f8f4f6d03fB07F89DC41222d3D6Ba6cc4"
        "95170f43e2db9920d349f964c92162583c64edba99db52b4b03aebbf743bcb5503f2e4437448e5bcaa51e644011489e4dbab7c930e252a4ebfbd76b0a870318a01"
    ∷ sig "0xf83a405B64c3849DcBdf68FFF6Ff52D45Db1A61C"
        "0031745cb21f708dc1cf7afb8c54baaf523e40905f87bc50c5440819110a1b331c29c10891fb176bc453666f53d327d3f905ae88eca6b9a63082cf9e62e13e8a01"
    ∷ sig "0x97A76d81C1C4d6A10c83b334B532F73fF3DB8290"
        "38ecf185c1322c021746dceabd30a7b4003aab9ca2ede54461e01b3bd6ba2ce87efa3b5df210ff95b373eb9461e54e188087ebb98270c97c82e70cf341d7ae8901"
    ∷ sig "0xaF76883cf8FC10C81d27F45e0691d8C8610F514c"
        "48f7d448739318c068a12cfa9bd2e37cb8bcd33a7ec8b12cf4b6f2e9485a4eee200c132efab0edb39cd2cccbad35e1c94179230ee623041bf695b488afe23ea801"
    ∷ sig "0x4c04a720716d87f01751bFA61486b51aeaB0CeF5"
        "262b889c902be6b3bc62877c9749a545ab949fa9949089c8fd6c6cfc136aee2f78af8c142ce0e99e1c4307d373b1efa89cff30a1a4c9fe2d45d357cddbc7608600"
    ∷ sig "0x6BE8f1414F13E327044df8301aa86EE0bCAcA572"
        "9ac713cc45e31d75284c0149f50a282fc849b61da6b1b6153f664d5228118703292b52eac7e763728e536121ae3148cda1951dc5672482ce7c2904c0cadd03d200"
    ∷ sig "0x341f962B6935758ca330B6053c285c8AC376010f"
        "6f8979e545b9f42ed4e6d747894e84bdd963f9f9a610098e9e93273d7c03344e261c8ccc878a2fa1a3b696103f6a4c19117e67f211c8bed18219536aca92917a01"
    ∷ sig "0xcb2eaaC4C08ba3D2E732D0CA850452E5b6Fbc49f"
        "0012026e0cb996804d3f4a680f675a77913c6bb7bf1a370f067fafa5656e1a684a56d6100994dc91cdb4421af5a14a190eac439728bdbc09eb88fa94eddd671701"
    ∷ sig "0xF80A20414ADC2153fe342Cebdac5eaFdCCe94F13"
        "62f71d2b8cf8847a23f12677763bd4b5085b116cb5cfd15cb27dfd493ebd59fb2bd5b1592a05bc9db716c5802dbbdd4530519225574436d055875afa4044c59501"
    ∷ sig "0x9DC102509b6c20812f3Af30C36188D2630718a75"
        "51fb652992d24a0be3ac708e897f1ba6ec2b9cdff1138f60f3a12ef3977dcfc171ad772bfa7c90d08cd411b92ee28968a4d427bb799afe641c92bf97f31f386c00"
    ∷ sig "0x164E6423F74d6c284Bc3829Dd0283A53cEbA9094"
        "d5795e274d491aee02e2d262ac07860630d1a66a48d960cefbaf8a31628427276905879ba0084f9ce7b6cc757ba874fbc101b7c7ced246ebb20852752f8dec3100"
    ∷ sig "0xcBe1a847767d6fDEeB160bAC9AeaEe68C3De9e42"
        "e1d79928dc134c9577f8ebbaa50eac1e11b4a4cd6bc619b39ee5c08df1e62c342e813fa13f1207806c20fb176f30ad0d6a32b4d3a3dc53c4e104397360b8e87c00"
    ∷ sig "0xD66B7FdAbd495f3216E69cECa4F48D07bfb2D4BE"
        "2eebc3dc4df96e09ebcb71591132a932dbda18a4200cb9c38c8eab24734db6df4fb9ebe68c5a1191a791faee56680d9af132638761b83deaffa1fa9fd345af8100"
    ∷ sig "0x672055edC989FFDBa0B115BA925325959412b420"
        "3a560c3d84a13fac22b8c892fe2e113dd409919f9475bae770e391ba7ebd4e1379f4cd7b4aff3f169b968c543aa16760a6cc964615265bbe5010c3db4ea6c98900"
    ∷ sig "0x39610Cb77d1718598d08d8cD036B2D2e4d92836E"
        "677f2b7f2ad644b36de892c0577e7f1a7e6443ae88764dd77ddd589186af87a27b5bfebeab9f4c6a4e08b6c11112ea8313a03f871a841005dd1501db258d70ee00"
    ∷ sig "0xF2E74155D3a756bdcb8d0658ae2032e2EC6A8e30"
        "ac14f8c23f48954280ade7c663c4b04ecce0696aa9f510621ef9ddc3b5738f064b8a06660d0740a1c888228049b389d2fe95c39ac7e24308b6d845af0e3cedf101"
    ∷ sig "0x41D6adF7b6cc0C058E99dD022C7DFf19A4968405"
        "c5bb10bff663e1cdb45de02f7114228505fcca805cac36923e558885a971ecbf3e0935ea646dcf4c1cdd15ffe7d482a5d1415c9606bec6a4b060092f09abf23200"
    ∷ []
