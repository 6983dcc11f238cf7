-- ===== src/Keys/Data/Keys3.antt =====
-- keys/data/eth_keys.go, lines 300 to 447.
use eth_proxy.Prelude.{List, [], ◌∷◌}
use eth_proxy.Keys.Record.{KeyRecord, key}

abbrev pub keys_3 : List KeyRecord
keys_3 =
    key "3224b2a3208ee122ea9a467b71d2d7c1da130a9d95629035ffda90f632134a14"
      "0x2b01E069eDd46D43E1486e8838e47e2605f4B2B1"
    ∷ key "8a1f77a1b2120f2566b0a33603252831810ceb576d13b717068e3678dcbc8668"
        "0x6d6638F3831becF3cA9c72392C8716ADe1890809"
    ∷ key "a63492aa09d410cd001b2fd016af49e294e86cf2c268b85c2493148615711dcb"
        "0x8A4F7c94c17E9843046B68a2be1719402DE55A1A"
    ∷ key "5b399741640a8e1cb943e12d0602828cecb4ec29374b7de172f109bec1b6ebd6"
        "0x2914Ab005EBe3d1187D63B557Dcb5d49Fc067De8"
    ∷ key "dcf10dd0dd184029e2942852add02def7013881fded9d17afaacde775735af75"
        "0x8D73e1B1fB90043b87c15A7F154D88908278653a"
    ∷ key "86f3c98ebf935c6e582f6074ef08e74cae5c8fe5a05c74321dfed1a32a7efc64"
        "0xFf2fCea4578803dF975304dc63EE5AD1B92Fa8b7"
    ∷ key "1962374b51cb0d8f07aa17e54c9668101c8e733a07447b9c496acc3da892d6d5"
        "0xB2221Ae3455A1d7c5CBcFc38151DDc85066E5C03"
    ∷ key "42cbfc9de446d94ee41bb8134dffd69f98e9f53ea618e3257a5f66b1b613ef9d"
        "0xDB4F14ACc639b3c91CCCa04A3a0BdD5A3FBaBcfF"
    ∷ key "647eb1827b579e92d086e6df38acf84e8229273270ee12983233c03f9bdfa9d1"
        "0xE6E0c8B7723C40a987aE0B440A3a0d9072Ac0fcb"
    ∷ key "65d4a69018b59e58e820e1f22ea5eb0ae606789556c80044384d24c4a7da7a40"
        "0x4A446807f0e516411372758eA530041931Ea9691"
    ∷ key "1ce3dc222b3949c8c089abe79e211c4c474bfeb34f36fec762633e5d72e80a13"
        "0x9672A4A0AbEE6593d34c98e4a6405d4b9b989330"
    ∷ key "7a35b60c7d0bcd7605bd1ad458e4ccd71aac21cdd768f6044a0f29f23669b7c0"
        "0x633cA8f531081FA7d8748831676A1877D78B23f6"
    ∷ key "9c5b81c1263edaa58698307ff5aa973e3a6463965be0d6d5fcf8f5d3ec58dd8d"
        "0x956612a0d03f10b053FAec5060eBfDc1D79B0610"
    ∷ key "3077449d789412b60dc481d1ad1a607e72d91f30c6a93d47760eefa93a2a622e"
        "0x27983C29Bf63170DE71C49BaBce36ef270E0eF14"
    ∷ key "a6b8b5f9937f16e16571cc97e1fa043c8af13a030343052df3f54f65ba67cee6"
        "0xE68FE690288A6E99022EA3173d0CB82C4dCF6C0a"
    ∷ key "ecffec784da38f7b85bda30548cf6936a8bce8e4341f4fe24fa681910c240910"
        "0x85Cf70224eCa3F901aeB6390cd2532fA030fdD5B"
    ∷ key "3926abb67f20b2c7811c6d84aefabc2974270f78678c24ce583b7ca829688b82"
        "0x642C056E778337c1C0a3a89f5deF763757cB7e22"
    ∷ key "a8af4536644c947127d16c1d0de14bcf5340a2712baaddcc00b0a18ab12f6ad9"
        "0x60d02725025D9A626C9f23D76AC3835C646eE13F"
    ∷ key "be25772a987125c8752e6352076f8b876b02ffca5deb8e275ca1b7eeb93b94b6"
        "0x8C3385071D8447Bb5db1b939785f235DCFb7e58A"
    ∷ key "d69322350f69f0c5442fe0fbcf2bcd673fc565ddbcc9f8abd144f5faeb6c7b9f"
        "0xcCA5C7a06e073eAa72301e91bDCA9B3d6d500c39"
    ∷ key "bca439f19d75d01fcbb1f612d8082e4843298bb0cd95618a5852c72e8b02efd7"
        "0x94d5f600A64009E95a83D4fF6c7cdBf091643730"
    ∷ key "14f7fad7db45b2556976c959fade1d1220dd1631e552b789718cb8227fdfb4d0"
        "0x5b5c2D8A7715A8A98F798B3e7d4A6b11ac270274"
    ∷ key "00c88b4bc3608aa6515ede9241fceb2feba609412e80d3989014db0a65299063"
        "0xe32c64eA1b3f193e01564E7492b1C76BFa7458F4"
    ∷ key "f1f1d23c983dfcaed82b0c0d64e006a68bf4fe150b5cfcd7a0372f9167a952e3"
        "0x8a60B3C6466af68132A289df4AC31184953D6EC4"
    ∷ key "8364c05a2955d51d37a636cd98f663f96c99215a31a11899c1020fe953595a09"
        "0x4Cd4BB58E119e17B39395E8C425Be6f1266E6d85"
    ∷ key "419273b64e6935f44b8b5937bc65633865ae5d98c864a1fc430aa8343d525269"
        "0xB447D6a60F88dc89e03C5B5728fFfb1CF07D8C70"
    ∷ key "8249c62853df375f0580149d57ba406b8a7859ae03095a32909864d36c182d74"
        "0x53cB88dd3fD233F9a9e733BD90c64B4CBC0D38d6"
    ∷ key "121abae0aabf3f68f77af9ba9581b999e8d68cad78e63733da15999098223b6d"
        "0x53dD15963Ce052e2C6A99108d8eAB5986C20E887"
    ∷ key "698ba1bbdf419f6a9a358f035032a91c89d0537dc09718ee7ba84a9b9fd5a2c7"
        "0x7A9D264b9bDd7DFCB8FCf7F0E9C0a18fDf860bBb"
    ∷ key "65949cee1f2639399e3a20bbfa170526822a7936ef004eed72ca54f48f0b64c4"
        "0x59286730CAd76D088dc73D69cDE3AfD204a93CB6"
    ∷ key "8f8fb95320efe2e9f7430019aac623eb72b0e2dc2a5386c755414b7be7705217"
        "0xeB0B4616C89c2F60a2b6cEb9C0E11844CD792b88"
    ∷ key "96d553780f062f3de1834f872594a11a84b00f465b9e14a4b4d0e824fbd333c5"
        "0x9f0aB2B9d4554Bf877f886FD8fB2f014f38F644f"
    ∷ key "2c9d2f11e0f6cbfee5e979eff1f24e2dd0d61540e6280b0e1e116c3baab2476a"
        "0x51F42354D6060F0648BAE57a45502095f24F270c"
    ∷ key "8aa7b85c2686f5402754be3038bcb4cb6eee62e02296912afc1b104846f4ccc6"
        "0xA4C2c337D9baE855dB3341f03a07AEBfc5E6528A"
    ∷ key "f09fc42f769b543aad52a675379dbb17b60ede3d143449ca7ba71679573e3ebb"
        "0x44Ee46a105d3d5FB0b15C918613B8e2252a1Ce83"
    ∷ key "82a0a90c1f98c29ea925b2d1bdb76e90b9aafe2a2859ffbce0898ce1997d54e9"
        "0xC2F1a40b3b04566b36AF6d8fDcdc5723AE1fc922"
    ∷ key "4ef203e456f8e3b57bb5adf4fbaa04622e279bd35769ef4726a7459efed7c817"
        "0x35ef1BCFbB3A042E9C2271B9682D6320A496ef1F"
    ∷ []
