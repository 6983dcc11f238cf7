-- ===== src/Keys/Data/Sigs9.antt =====
-- keys/data/eth_sigs.go, lines 1188 to 1335.
use eth_proxy.Prelude.{List, [], ◌∷◌}
use eth_proxy.Keys.Record.{SignatureRecord, sig}

abbrev pub sigs_9 : List SignatureRecord
sigs_9 =
    sig "0xa5aa76e604ED8D1B3F4eCEEAdF741569f50D8181"
      "ae3260cdaa80e532b7f9ebb8b4a9c5ff5628df6a2cb7354bbee432e2342f96ec68b7fdb92956aa2f2792daf45da0935526489b7f7997a08f046e0b8ccb2295e001"
    ∷ sig "0x19bB90108470610c93e205D0cA81ff63530e12EF"
        "bf67cbec29b740909f77df96ae731d615ff39aabe4c2edac785ffb2a2c5425466a0b15cfb29f3b7f1eede2a10b378d89467b690214c8f40c5cd440e36eb3bb1800"
    ∷ sig "0xCF5ebe30951acC18C1A6Ce44a1B3a3A17e1C04c6"
        "1f7ee3bb619919c353cff636a0fb1c033f8852722c66270e0611b2a22c1276544afae4473676a1953d20eb43fd67bacae49bdf2fe4a5581fc222a64995ebe37b00"
    ∷ sig "0x67FFcffc990b7996a4Ee2Ba8Aa61E2f672b13B31"
        "c5d8b638bb9f6d493ea71bbc04f27454a483d66fbc9e35c8ff31c82da5b799987561e9b207e18ec2abe50e0213d57f49ce87277292fc0b00144b7a7cdae2a88200"
    ∷ sig "0xC57D5750A724c7c57fD16beeC6E5D3ace42F0070"
        "cc0212ec829f635e7e2c1cc5d1b9c667a669b39bafe31f8da6b57e07ea2d7ec75a2ccf5a579bc2b9bb8fbbd8f3746d4606c9d9092c530cb5c60f9fbb64cd6a7b01"
    ∷ sig "0x0ff22904275751fc767ef3897A72a63665d11CAD"
        "dc38173be7bdb8136a8b45428183bb82cf7b1e1e2eeb25606771cd48e831824c66698020ef455a79be748952b230ab56a204dd7e6c3ccc0d5d72d4aea715b1e600"
    ∷ sig "0xc9D3b86CE7CEC905bFEe1cDbEE1C4eeD6c5B3B74"
        "271e576a23ab6dc0dedde09fdb46c12c510d08c9c290beda01438e761e18cff273ff7434acdc461d8fb99ea36444b03209b894960a83fdb60e49499511e3fc4500"
    ∷ sig "0x8461Abe01bD5167a267fA562d1c5fD889db49d93"
        "36dac6d00426145291ace4bd7c6a2bf140fd0f2f9034cd945f57e6ba3cf39e910e5686bf30d03a47dd34dce2904e0cf8290f91b1286a9df72745e9314ce221dc01"
    ∷ sig "0x93bF5C51078075B60e6661650Cc57D610C154978"
        "7a541b9457396365c1f1daac851af803c9e506d79f17c1c14bb0ca7dfec876c67c57864ad4420ea28fb22fed897ecc2d4c36102ba838361b369b9cbfea6dcbd900"
    ∷ sig "0x9C73FC10AdbD80FD70b81551735910E54ecf03a9"
        "a093962519bd15e9944b4aef9e8a23d1932fa8b35ffcbadcf44bf0e3db5a9f9b1350bf58af1ecc8ea262a2b60385bcf3dd6e1b2db99ecbe6b86f68d1b31ffe6501"
    ∷ sig "0x01a0D3c109975417f11cE40047a64E2F4b845f3D"
        "d1ae91a419b6d22756cbac3991502e3611120f4cc3504f9dba940439c02ae45366e43897e8134d5e1aafeca05ec290b6ca1adc09e2ca11fd0995bb645cd06f6d00"
    ∷ sig "0xd59f6231748E5E45b77B58527A9580D6Fc7b89C5"
        "98097221deb244897d73d4f283ee7caf278276012564d7537697639c5a309b0974a1cd5820c7e8e7ab056b953087ab806a40642741abdbfcc716491c0fd76e1300"
    ∷ sig "0x2a57aC0fCcAD619cECd6501bC5e100b6700677e3"
        "c4d5f12e4b63788b67d9349cb37338fd74dcad02b52b2cedb7dd7afcc6a4e4f76ad84387a244863687aa8c5926424fa6575d75fec12885a250bb2a6f1db137b201"
    ∷ sig "0xA80b235e95fCe446ddc5885B18a9A086684Ec54d"
        "3a4fd0c370aed00f1f0fc75d3498cffe5aeac3ddf2ce04fc03abd005e2adc4cf11946f7d41f830efd1fdb6cdf76f0c892ebdc0eb36073cd59804d6d2eecc1e6901"
    ∷ sig "0xF024C6f5AE59Cd316FC74f7741202580AB39187c"
        "d8384cfc952eba96c07a0a23089b0c7a554f5607d13cd4a200e9e20bf503a7513ed61c433671f4aaac9224690df2129e064b122c024d5919e905d164542b440301"
    ∷ sig "0x5EAbc3c07423D73E34857DcF9bC1895666c42429"
        "4ed89dd801aed726925222effbbbe0be607241e1379353d1b228315cf94a03725c07b05214f695de9a86d13602556b23628634e3e07af43d010be3220d8a4ca600"
    ∷ sig "0x19db70F362c9aBb9b077cB86e72CA0D8C5aB7a64"
        "caf4be274bdda040673c140e37c89800aeb0f2dd2d9cad88ad09d61a43110940685ab67a09b81400785d1acbc8a6ddd32977ef170b7cc974ebd829406b1aa1e000"
    ∷ sig "0x234Ca3c65ef3eEb7116E5af5E54145b10A7227ee"
        "07b44120bba6f6b4d4b9384381c711e3b6389dfab11fa20cd89c47e4a3bf5c763674134fc5f8c1e42ff72d0d9f630fc7e08661ffc2d83e9e938682d63d92a68200"
    ∷ sig "0xe8854Bb25251586a16cAbba5DAc0918E7F0C443b"
        "eb4c00c16547ed386f99e24366f6c17d0642ed9251f3744f00323526137afd396efee20c0745714c04881cae7d8c08d4a619cbe3e9c30beeea9160990cf4093701"
    ∷ sig "0x86A4CfDCbe549a6C978CaCA1f1590E3C8061779D"
        "e428a636e9d835a0f054c690f168a844a1a58733417ed95e7eb7b97d2a2764c315c0af3dc024f9bf656632c06abd979740aacf970440b0e6e5677516ea3ee59501"
    ∷ sig "0x7978E3461de9eD30f01E4133a3EAC4b8897f6d20"
        "3db74e7581ac30bd2893b212f3b0fc25a1cbf9ba8b93ccd91a0098cb6255961a10cd6360bd41fea1091bc3631a66cc0dcbb9d40c127cefec46b61693c4b87a2501"
    ∷ sig "0x067a6bC0D516c67622aD406DcBD13a9148144d72"
        "fa1a5e5393a295fe29ad7d0c4b24354eb72b5b0809aa1f949224bfe55f08d4fc17b671eac99aca9175b1fac8df73776a846ecd7fe9630b6bafcaa008f273064101"
    ∷ sig "0xD78f51D326C6A7a2042f9329C565d9294d209E87"
        "281029737679bbff4668c6959a1d6fefb9bbbe27505cc3376b39c333d9692a002b1c05ae08f56996d0e1476ab4c26ee815298280daf526d80ad8fcf482e2a10e01"
    ∷ sig "0x50F2123da5b72cF70e625446F45253cD2fCa08b7"
        "a0ea6dbed20183507fe0cbb49b07b5819977153ef65220efd2d6d5a3349d42fd6733c1dbc2303d4eb514f72f83b7fb4615dfc8b430e0f7aca3786de40bf3944100"
    ∷ sig "0x3C1bA9cFFdd9466207BAF309063b834f12922de8"
        "97ef42b3a589d71dd04c0ad57eb1f343f8c98eec51fd94cc160ab023706c7a78442772aebec6a0746d2568a506febf8e6e2291446729b53eaa9098da1dbbac5100"
    ∷ sig "0xC5B86c47eF942b411f8f13ec61461a5239033EF8"
        "731df079e94d99006f3dd692a1e34b1d8249f86135b56c4e9906f3e9e11d275d35316452bb531a073d7a7fcc6f314ec741cdd39fab0430602d5b6f806cfc6b0001"
    ∷ sig "0xD1e80bb84729B8FfaE2DB813a6b05D56440c3412"
        "a4d41fb82787bf2a2238a91d51c5e3aeee77c808be1cbcf49dc7a0b7234269703eda4b19444a95147d1a6d1459c6ec5ca0f9bffeb9a63549ec0c5a365d8575b001"
    ∷ sig "0x94544BB722cD6416597A91cdB2E91e9C9DBFA915"
        "844da04aff171d66c288630346cd2dd949b3b7bebff6f4c0193b9d33c7e6ba5577730c6304fc5845923c0890cd169727a0f57de912612de63112b8f1af9d4a8f00"
    ∷ sig "0xc6f8ACF279Abadc2B4b022AE1c8Db4f5f1705d64"
        "0facfcadd40b237dfbc74a3333fb83379398988cecc0e24f95b9567af9f4197f5849bba912ec07b94c1ab51be66209bba097b2522fc4e3543cdc39c6abfa1e0901"
    ∷ sig "0xD0Ca4c3B621Fa560B15226BE13b0C0FDF66e47af"
        "b9e16e6a4de487fa0558cf9f671bf1098896f46da2018030c6952a595350559c6eb10e29636c2fccd3968c4d5a423ccd170ddb4e0f212ff29c0d0f3df0e116a100"
    ∷ sig "0x654E58c3e6856D0A4720D2fb02D701A1bC5794EC"
        "42ff671a585ee32b2454d11679c3d502faf1a166bcd7d499b99d0c8008a83e1272b5a583fdb66019be16f204c6f55f68fa8083a2ae5c8a3c1a686a8191c1560800"
    ∷ sig "0x0E880622958437F64F50e9D4cAe18Fb748d29355"
        "722331ada28156d868c4359aabab07efe30709d31c8650b719e5c509c93d9cb47c12f66792973dda37dabcc9578b8250fa6b633a68c05b5de8460ef533ba4d8801"
    ∷ sig "0x1E245D536D8E38A8c20f6de4F3050b24ADc2f59C"
        "7d3973ffe53bae948b6e89626e77eecc42d974a9681afd01b43fcf58cb1a8e257ca57724361fea43033a2be175e462267f863a219d581ff32e728c8b926d4f1a00"
    ∷ sig "0xe5C9c823E98b8d12f28f0ee675C7F1322b9d15B0"
        "d58bc3a78b4b8910f4ad4bb8eaeac449f7cffcbf32b19d4f736d7fbe1f829dff61e9f3866d75cf07068e646cb7a8795db51e9bbd58dc4c1657f1c7de8971667601"
    ∷ sig "0x4E5d9AE72BDe477ab7065307A26E9cFb402D3F72"
        "9b4d6af6b7248b1903d1d6caa1037c1cb2573fd295696d0a32cba9d630a4847d333b362c804a90e21db0b02b9af554dc390ac2d87e5bd91d20ac3e323434d24d00"
    ∷ sig "0x0481E2c094680E4Bf65f553683D8688E3F1ee40A"
        "dcb27f54346d91e3fe6b2acc14514bd45cc4b516dedae961f713d177015617ca662cc4f5b87b0f14049f4eea2cbb6df02ee092617ffde32eb824f3210f1e1fa501"
    ∷ sig "0x36B6017CfC6ce4f493cA67e54781Fd021c031b6E"
        "3da46bfb94c79461eb6d1e8e100f040b7deb6eccf3ad81e301cf7b77cfb85ab54ee5a281d8f929bfb048ed4ea292f933249aea1f46ba0ca49ca2259d3be26a2c00"
    ∷ []
