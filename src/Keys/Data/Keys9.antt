-- ===== src/Keys/Data/Keys9.antt =====
-- keys/data/eth_keys.go, lines 1188 to 1335.
use eth_proxy.Prelude.{List, [], ◌∷◌}
use eth_proxy.Keys.Record.{KeyRecord, key}

abbrev pub keys_9 : List KeyRecord
keys_9 =
    key "7d6c05a13b7ea189cdfcf81d7ed70436c726031d6e35a54eef9fc48432677f11"
      "0xa5aa76e604ED8D1B3F4eCEEAdF741569f50D8181"
    ∷ key "f7ae1fde61e2875361b44513197e4b8224c56ede776f2ffa35ba3eb7176d07ad"
        "0x19bB90108470610c93e205D0cA81ff63530e12EF"
    ∷ key "f0b3da48ec21bbf2681d5124bd415fe2435ae415a0149f05d34b0e483922f744"
        "0xCF5ebe30951acC18C1A6Ce44a1B3a3A17e1C04c6"
    ∷ key "f9c124098f2f73ff2582cf1b9c725dbac78619e46614f265d05b72190d7e31ee"
        "0x67FFcffc990b7996a4Ee2Ba8Aa61E2f672b13B31"
    ∷ key "d8c656170c9d7cd13dd2a5a736de6a70d22f672d3ef7386eb2b9d8c386ba7a1c"
        "0xC57D5750A724c7c57fD16beeC6E5D3ace42F0070"
    ∷ key "1f2dc995eafe725c516511fd223b58026bd29a554df580c62103f06b1701f8a7"
        "0x0ff22904275751fc767ef3897A72a63665d11CAD"
    ∷ key "cf52da53073789f28bca96bab77535dfd4e6e5adc887519fff8e75775caed799"
        "0xc9D3b86CE7CEC905bFEe1cDbEE1C4eeD6c5B3B74"
    ∷ key "9257b04a77b041af92703d6654dd80e2bc49ff20480739a4f7a035d47f42b3dc"
        "0x8461Abe01bD5167a267fA562d1c5fD889db49d93"
    ∷ key "e4b771aff178e1398816e8e761dcf2fbae014e825a977731180be6c625219f22"
        "0x93bF5C51078075B60e6661650Cc57D610C154978"
    ∷ key "45fab4cdb5e26cb1609c56c63f6b1ddf64f5666dc829c29f57e02ae43e4d1fa7"
        "0x9C73FC10AdbD80FD70b81551735910E54ecf03a9"
    ∷ key "27a4c8559cadf1036547be80558fee3a5463360f756102d413088c9f4c4e3dce"
        "0x01a0D3c109975417f11cE40047a64E2F4b845f3D"
    ∷ key "c13d21fd3d977da044e03330b6223ae94f4871aa0ce0a1c1bac1d553f879f7a9"
        "0xd59f6231748E5E45b77B58527A9580D6Fc7b89C5"
    ∷ key "747caebb19473b851bcb242610b4d9d25908ddf2fbfa6d17b2bc596ab4e8a065"
        "0x2a57aC0fCcAD619cECd6501bC5e100b6700677e3"
    ∷ key "db6364d7c947298d2f22d6fbdd950a7f4525a7c247f296d94c4c06d999149e1b"
        "0xA80b235e95fCe446ddc5885B18a9A086684Ec54d"
    ∷ key "d67deac12cd72246e2c1e99b0f1473460a23ad21e9412de2e5bcc094cadc0821"
        "0xF024C6f5AE59Cd316FC74f7741202580AB39187c"
    ∷ key "df9429638e24ac95f28301a24b11d1e5edfe610681cf664eaaca0a547691c9e4"
        "0x5EAbc3c07423D73E34857DcF9bC1895666c42429"
    ∷ key "69f5624792dd789e6be19e3fd412fd2ace72b8af7b4f156c22a4d9a160d074da"
        "0x19db70F362c9aBb9b077cB86e72CA0D8C5aB7a64"
    ∷ key "067b6ee31660b783755907ff7e042e4d47fa262f4898f3133154b3e87b0d44f1"
        "0x234Ca3c65ef3eEb7116E5af5E54145b10A7227ee"
    ∷ key "652791cce5ef5ff354bb5695cc7d0c3eda7f0890366372c743b40a1c351212ec"
        "0xe8854Bb25251586a16cAbba5DAc0918E7F0C443b"
    ∷ key "946c72f71f629c9446a08f7e8473efb8a05f75aadabc96cb8c12224e3439422f"
        "0x86A4CfDCbe549a6C978CaCA1f1590E3C8061779D"
    ∷ key "91c532125938d4a48c2166ad84a814f5fd4f87d9ca74b5d988014b46daaa3bae"
        "0x7978E3461de9eD30f01E4133a3EAC4b8897f6d20"
    ∷ key "e7794b9cfd4c095b22fb6d49f31bb2f3f9dcf15b55dbad47fe97e4e529292a57"
        "0x067a6bC0D516c67622aD406DcBD13a9148144d72"
    ∷ key "9e10f039534a031f22863ed466e9280865a9959ab3345b095a31ac4b69fbf38d"
        "0xD78f51D326C6A7a2042f9329C565d9294d209E87"
    ∷ key "c61ffdc7c1394da8b310e76b7da85ecc9cb5ccbb43f5cbcb8f98e0d2d1be82d9"
        "0x50F2123da5b72cF70e625446F45253cD2fCa08b7"
    ∷ key "d0aa1127f6aae3239336275e164228a871cb650ae771477269bff1205551156f"
        "0x3C1bA9cFFdd9466207BAF309063b834f12922de8"
    ∷ key "295e06535a9903b14a9b4d4120dfe63f5962d6a3d92167e2c5951be05caf7bc8"
        "0xC5B86c47eF942b411f8f13ec61461a5239033EF8"
    ∷ key "bb058f115e5eb4c6ac618e4e4c71cde0eb686b3cdf1dd4cfe409deaedff2edf7"
        "0xD1e80bb84729B8FfaE2DB813a6b05D56440c3412"
    ∷ key "fa0f5b760ab16ceb79f0ce05dea6af94d6d1d42cdf5bdffeadb959c802777861"
        "0x94544BB722cD6416597A91cdB2E91e9C9DBFA915"
    ∷ key "1fcde3e26852aaa6c58d3f794bc7d6659c888306da8a1910676027966aed1455"
        "0xc6f8ACF279Abadc2B4b022AE1c8Db4f5f1705d64"
    ∷ key "b1b9978c914173e73dcbd42131b1598cbf68e0c38d5249cdd34a76685b01e8e1"
        "0xD0Ca4c3B621Fa560B15226BE13b0C0FDF66e47af"
    ∷ key "c4b305de6399ed83ee965328f34ec89adb55a38263ca83aeaafdde4bf42fa771"
        "0x654E58c3e6856D0A4720D2fb02D701A1bC5794EC"
    ∷ key "64bdf9acb89462c293b2e17e87ce13032d299b5c291d63c1325259a7de259d96"
        "0x0E880622958437F64F50e9D4cAe18Fb748d29355"
    ∷ key "83db8e60099696e59676478db48ca25537f63bea9337c877b4cb2b2b9c5f9ee6"
        "0x1E245D536D8E38A8c20f6de4F3050b24ADc2f59C"
    ∷ key "8fda4ba98139ad136de93df8b91b6bfda3067fa57486da268b7ff4e0057a67a8"
        "0xe5C9c823E98b8d12f28f0ee675C7F1322b9d15B0"
    ∷ key "a2279435fe2f2d84b58ad18bba0535f3a8b9c575bbae86ee94a388382de1eb88"
        "0x4E5d9AE72BDe477ab7065307A26E9cFb402D3F72"
    ∷ key "703e8c852f9b45a52e9422b880eadbae04aff36673eb1d81ee6fd349fc27d70c"
        "0x0481E2c094680E4Bf65f553683D8688E3F1ee40A"
    ∷ key "2b273183d534bb8fab7b75f84b4013e26e6e641a56fa649cd893bb0551ecdbc0"
        "0x36B6017CfC6ce4f493cA67e54781Fd021c031b6E"
    ∷ []
