-- ===== src/Keys/Data/Sigs13.antt =====
-- keys/data/eth_sigs.go, lines 1780 to 1927.
use eth_proxy.Prelude.{List, [], ◌∷◌}
use eth_proxy.Keys.Record.{SignatureRecord, sig}

abbrev pub sigs_13 : List SignatureRecord
sigs_13 =
    sig "0x355823dc8c4AB19b1a89FEE36d3603e72c977e01"
      "6689df0bf207c4bbf9f17445326a5370f9f478708577329840824f10f36f9e2a76f3876640f1157007549a40672ca3b2d04731e991e92bf5d78025a9d6ae228e00"
    ∷ sig "0xe53B290Ac76C875e627AA2B0786d4BF262ea49f4"
        "3b399040235b81b02ff0406ff6e7c6726f5ae84164b1f0ed3223a530227a3db631545cbea070b05c6f8ea034f43382e244adad9d18a546701ac0335b9303bf6200"
    ∷ sig "0xE2Df58479De5EBFA486567436e7D373F4065bFC4"
        "6c36d67f3065147a0340c55567e3a5e6cd15219bcecce49f718a8c8466f6ba743fdef8ee869a21d1cda17203390a4333fe5b87e3c68b1be3d3b428c2c2130fcd00"
    ∷ sig "0x8B2560f0506B775ACeF8946AAaFccf8C72786431"
        "69ecdb338c4aa5d6a22e5f733647ef81bd1b1d30939d1903885720489425e2816b479fc3edbe036e4766ffe261b1d07bd8bd0394df3b476fb6418e84783a0f9701"
    ∷ sig "0xbf0c0380703F412acA72549683E26000CAe99C64"
        "1cf9f32e82a1e79ee922be36a8b0a87241559602f163ebaf7b0552e1ac7ec5df613d32ab19c8b1a1a83bde7e81f05d7a1c9d91ac4e9958e0099b6dd5267ab6e600"
    ∷ sig "0x1407f292Cf18f4a0607502b784Bc9c0E0e3E5974"
        "84eab2aa1b4decad7506b0fc692a9eb549ed52f567e113701e706894373dc49c5de884e4a2fe2c6ce676f6a2f2f106b195b91012320ba32af26c8d32a6650dff01"
    ∷ sig "0x3AfEa04c1B67cc9C97d3Be6ffED62cE5158d940F"
        "f5f8976e7fb148c5f4c047e26a173d4b98b098d095e604447eb85744d856b0442de7f06d8dcc09593299862862320a85457f50bd8633396def96fd1194fee36f01"
    ∷ sig "0xCe628E6fB7043bf1F4552aB18d7b906B70f26176"
        "02d52b93020a081553d47412702d995672666e582c9c5a02cf594dcb2bd716f968fe4644c1bbaacd2f380c3e67a55af49f61c2adc45b4d051ba7637d30e766d301"
    ∷ sig "0x9765C0ab8314EBF09829DA20f1Fe007059E8688d"
        "74f7fb6ac408b0bd1064e9a0e3f847cb18808624fc7cbb10572586136d58806a668151959402f73e1045159436dbdc7aec1a8c06304757ae6dce9d2d0e68c45300"
    ∷ sig "0xCEb18158b8429E71E3745eb6c3f5dab880BC624d"
        "50b190687b81e8c54e967439d0043377309a6251568360bf1e7c414c409a36fc0896cc74b2943c339ae571dd607bca4603c4b3a6eb3333c6a608264c0f39ef3501"
    ∷ sig "0x274c6eD8d9887e1B4039A7f2a4D8A2dD827D2c48"
        "6a6cf0e6241b3aa628a18b9cca7c69bd3b7d3a421621f312d246b179aa3bab644fa1d0e877a909e82d65db9f3a5d792a513dc75e99b86448e1e6b80fa302ea6901"
    ∷ sig "0x4775F2CCc279051A63db2b35D1E4d1f38FDB8162"
        "7e5d4b97c922ff243b1b94fbca8761d1f2a4c7ff93614432c4eb41309a75f129797e8561e280f4ba595cb96d18cd542eb4ea9253d2feebb7c32b5a3ada69f22400"
    ∷ sig "0x06634019Dbf6c8a8377596D71E2fabA4b89de1e0"
        "354857faadbe66d2a077319a87c0cc1ad50bb018a5065027a8544ec0f360424b2eb2e0851aecef1efe1a0efbe6f9735be81815ed2607febc3bfab2dac2f83adb01"
    ∷ sig "0xCeD8771d5015f352AfaD899c24188fB43E810449"
        "65291eb2f7fe9f56c110c4face2ca96f31d0397a749d6f1aca4a578dff60277340e59201ba508486e7f60ac53b00d138298497c84f8cf3c11aa5fe8af3e504c101"
    ∷ sig "0x77d179739A5E1803eee4CDc9A67e8463D9427193"
        "e4d0e72ec31a111503211db8008ee7bfb6affcbf2a19df99598898ede2bddf6822114dcf466ec7b15dc5745dce541a90ce92d7b1ade8002a126c4b0ba2e7cd2d01"
    ∷ sig "0x1Db82ef4f14efecd75286ec9edCcAB63Cb01f773"
        "01a618fa9f8b0fece1bc069f3e4367d067610f4186d7a90d08c4b7e64f30f1c26abec501d8285981510ecc774bc94ff01a5b2a9fd51c73666bfe63e22ccad29c01"
    ∷ sig "0xEad0E2d97fDc71c729B29ECd5730b0B313514D14"
        "a14e231dfd91f491a309c5c2bc8ea86873f40f7c40413c518c2c953a7a85b90b42838ea3215943c67dc32e5ac2be8e53cc2bc86c045d945bfae71dc9f6332d4c00"
    ∷ sig "0x045e6316A8176B1c9E32b44C321b04Ef88F6FA7e"
        "7303f3ba11f0c62618896ffff97d4e70443ec9aff3df9d3f60a6e01601d67429287c3fea5510ae0cbe2bfa97ed5c27f56c329c03796d841138aca02b2a101d1101"
    ∷ sig "0x5140D82c1150f010a58DD81167B3e37bfb55fCCB"
        "c60d7f5f108e49963dd815f0cc0a5368810e6ee1ee3c6336b1933132bd95855b3b436aa74c7da074c6a98aacd081ee0a1e857d5392ab06390ce5c3512f3eb2e700"
    ∷ sig "0xB4f54464Ad79d5BF834dDEC476afdf0fbA480348"
        "e9e322a3ec054278e99de4de839d70d3d25f7e2d8127f3b709858fe19ffc7a67795fafff9eeeaf96fa233ad6fb1bac2624bbe7e7b1151428987a73cabb657d8a00"
    ∷ sig "0xbAECd88451F87cEc6285f7Df66C5f50325f7F6d8"
        "94a1de19bf82f23b0c86feb7bfa05f106240d9a3f4c9dca95756578f26487fa71f1b8ff75e971b20d4f3fc0a32d64b1e69d66527b380a606a48913a16f59661e01"
    ∷ sig "0xc8950a7E2db4f66CcD4F2Bdd2afBB9Ead25F22D5"
        "7508af9af870923ec69d1cd323720c4e777a0acee2b772182e8a8452336d87eb4d29cacccc295d84101ba8fb57688a1a15475d279abded251919a6d720cf3f5900"
    ∷ sig "0x5f40Cf191d753e01f4B7D36E78670a7A5e4A8F96"
        "2dc0c3872e8367f42e2a758dd4706a2ca2b8373a49864b853183fdabd03317ff2ddb4e3c7a0314ec122619a72c4ad4836ff72b785f7b1efd6c6f962af66cafd901"
    ∷ sig "0xE4668459dB4AA416dA91EfDf54f62AD6C25Ff519"
        "634fd02296529452f47a0f21fb5c00f7be348cf47f19f58762d89ad91a94d87f3366f0137a5ccf8ccacdb54414e2c7c2331258e582649b9b7986f112b2868ef200"
    ∷ sig "0xE982217b3f8828BefaE21B5BFDB708d2F9E2aeC5"
        "3f09e4f7dfeb4a4e529d9980ac25c5c6fca18c5d6d495cd3c1d0723ac53ba1467d937b80de83d58625bfb69d7b459daab0b192d2c71f88b53bef9aac9cb693dd00"
    ∷ sig "0x03f9D89e7D00256AFaBF1762F6c538bE98D86aa5"
        "ac7b4485536e7f6a83be406e6c7644b1d0c54b1b5002bdc52e14215771ab0bf174df5d2f053c55f608cba0925d19b300c00a0baa1350e518cefbd82d2b3385fa00"
    ∷ sig "0x0397377cDB8557921C47f44c7E015C30E06201Dd"
        "d2b6fb679fbd8d6e7e1e05f2b69c07909af8e28d408d1ca378753614437279237fb4e4c1260170cac5e64ed76e0ddb9d6212c45a7dc7edb76d7bc0a333e313b101"
    ∷ sig "0xd29AFE35eaBd90C76202f6185a3D845048255f72"
        "6ccfa6dfb63f2c1fc57c10ed46122c632985cafac0596408dd2d73a4282660f02166f51e57596f037f144cce7ae10707011e91b55c03cea3c4f5b28ba3fee42c01"
    ∷ sig "0xA9f5641CfD87e2AC987254dBA98705047D8b7254"
        "0f79cbc1566fb3fd8cc5e672ad410521033dc3e5282c80d947c4614f386066d4309a1416f597e615c73c231b628c954b810e5d1ea4e35bdfa7ac845d0d5e3b5f00"
    ∷ sig "0xC6034Fafa97171b2bD8ef685E2D8ed06980a8550"
        "505dd2dcf963b4bbc8d5b2bcf243879a5e32e3e94737f09e63a0554c393c540d2895e9504462bcca569deeca902b177b08fa263944e80db8661449ed1f8785e900"
    ∷ sig "0x879b71511738F3713B79E2B92C2dC0Bf0293C442"
        "5ef89b82869cc148d959c569a39f55cd36db1b340d862cbadef84107a5a9583b6a8ac9d6ef4ad9cc54b3eee736ba2c4d7c86a8b57df0579054ae9450c8d19fe600"
    ∷ sig "0x8b28ecCeD08ff4652c15da4C07CCf9A7F30f708C"
        "1df5580988a226229fc9abc9ef519ca48cafb123f8b328680ae6c05881e0e98d4d681c27d912e0716a1cb45f3d3c923dacb8b7e4a42be857f131cef089548b1200"
    ∷ sig "0xf41922574827E7167dB376cc8BeaC0c07896d226"
        "7b7a27108edf1c1d781e4c0465c3340082493d9395ddcb50e1757c34509daf30699b84bd13a66c3229e8b3c67044e8eca331f01fa67a83f1de9576be81a70ae901"
    ∷ sig "0x1878A1929E8c19c92B0bF4cddC0782EC4e986751"
        "0f5fba92fa1726578df91ca3b56159a8be117c66cef54c955f28a63776645f82772e87c7ebb28ab7efdafd20c7bdfbd788e1af830c66a8eeb36652b1a4609c1d01"
    ∷ sig "0xc4b6C4A70318D55B3bbc910d9CBbD8D11a67C6d1"
        "55bd1bcd1154b7b41cd0f73bfa9567b4368f0375778e156d604cbf46736f78a117f82637273ff4b57113abda2a94173dc34165d619170c5f357b583b8c25e17b01"
    ∷ sig "0x6D8CB10A13CF8e7bBfFE23fcF90f5b2D5A5Df835"
        "d98537efb29de492de4b1c593dbf7f62e49418e1b0ef7e6b5ec2cafbd73db9f625cd90de0d145a7621cbb5c2b4f36e23cb989316855b39ab4700161abe5664b901"
    ∷ sig "0x08F2fc6DFadCF423Bf5D8FCcc45d4Ca3272CB428"
        "69525efdef3c79b017bcace498a2bb663bc0bffbd8fee2890feb9ba46b73ec503734c1efde81605cc39723e1fabf0fe047b9c6678d5e34cd090d132a21e604fc00"
    ∷ []
