-- ===== src/Keys/Data/Sigs12.antt =====
-- keys/data/eth_sigs.go, lines 1632 to 1779.
use eth_proxy.Prelude.{List, [], ◌∷◌}
use eth_proxy.Keys.Record.{SignatureRecord, sig}

abbrev pub sigs_12 : List SignatureRecord
sigs_12 =
    sig "0xcB54029eDd9bd729728cFf739cd8E741dd338Ae0"
      "6b4c077ef4cb2ba67017540b34ec36ad6961b94fbe4f216e60af574e53db8a0b033930993a844b0b3253e47e7a26d75fd4c8b790928d819955360d7da207886d00"
    ∷ sig "0x8EdFf328677B6672F2feF63d0f2c5e2293e6543c"
        "2ce09d3bb86302da1634a78c3d68b886388502c78675aad005faa82aa2f7624750cdb6ee4c3b138f6ac937bb581bf3ce098979729dd19f319359e765a0c2fac700"
    ∷ sig "0x2eFDE9aC65BDc64c9c2E9e266C2375669C556A6F"
        "ff0c25a504fd67def60ebfe4313d92427c03cd71df99f70694caa79eeb711fcc2a2bd909c358135c7b00e46325294357f441dbb08a76aed5930de92264b8df9f01"
    ∷ sig "0xAdA2726E5DA26ecFc94000f27B6189Ee2c59F8f9"
        "b05f37865903389e4a8c7d65428bdc9a49d17d058f8c000f55773add604b06e2269dc7d949129804fd9be609550b05670cc3cab8d42b2ecf57595d6c2d56364401"
    ∷ sig "0xdA481A0587ADb22CFB29c0C2Fa04f3E9bcE70D36"
        "4a519b545cab6141f62fcf63a7b12bda723e225af9505acfb5fbe9fa9a989780457422c638c1d2c46e823e6fa177d4f57c4651acc972529a7ecd9682d4c52f7600"
    ∷ sig "0xC07180F754d82E8e46E65D88F7921396f7F29A75"
        "eceb6837bf3696452e4455fc2d9c5c38c6e0e7bc46ca87ce6a23fc6acd3c25b072b055077e89a01c31fe97834d12e30ede19e9c05e981655c21aea823b78df6e00"
    ∷ sig "0x906ca0136AB62ca6A14d66b55E87ae1999495407"
        "80b1baa87ea6072a6012c91c7bec17cac8b388123bc33a4e69268739107c830243844e77bd5aafd672c1e62c8058a63a034af833d474ecbfef1932a24e55935b01"
    ∷ sig "0x7021Fc3111e9d7658121234aB7444d18a34b4681"
        "197ef4bbef8aa779f7b4d9802843d653dbd823cf8258ad7dc41f92ef909e38b07945c40948fe7fa82e79db3f49a00c25f3c832d74c33edbca490df34157a624d00"
    ∷ sig "0x6357D0BA86AF1Dca68E5ad6b70a8F8BaFc8a5625"
        "7944d3f115e6cc20d1516c430fbc577980aaba273aa3e769bfbd1abad9ec68c468ee593ae5477b6f580d3ef8441d729575740d1e8471548a5558c1aa85dbff4c01"
    ∷ sig "0x01678190dB7aAa340F9EaCAB60FA136B0Cc3CDbD"
        "1de05c49707b43bf5f721872cb61466f1f2ce22121d4b45836ae090bd380660b029e5748d53d47d4306964552c586afff2b02747b981631d3bc6aac4b2c11f1c01"
    ∷ sig "0x6cEb3122911B35b871C76c102e498Ada1A97FA90"
        "88d94987dee919d7c8fd259cd7f26cc96a59240ab91c2f1e82523cec2e7b5d931d27f4a3fd241ff2323d681627f792cba957c8f007ccac3eaf6df994795a23e700"
    ∷ sig "0x0760733ff2Ee17d5f16632E4F612D60Bb311bB04"
        "e0d1928069811a5a35bdf16c63913aabf588bb855a95c418ed9f558eecdd53ce587f346a6196084ed20f23bb6b5dfd2f2e7bf7e9cfb3cc22302b98a405e8295401"
    ∷ sig "0x87635b3AD7DdC1175e7405387E9dA373b6402780"
        "1ae2a982906405e9b71ea32d8b2467c307dda7a15dfaafb3ab86c7cf67a7f09a489356d3fedea63e94ec564095cabd156fb3ea304dd3bf677e628bdb7269d68500"
    ∷ sig "0x51977818DC4549e8f550A8BFb01B260629f4c94D"
        "0cd41f6011324221b8998945b66d177033ede01b11219db85761de8703ce231861c68178a5eccfaa5b93cd8442fe32157471e0f69a8be2f97ba234c6dde038f300"
    ∷ sig "0x8626F1531473C1F89fBaaD8499D2Ee866eC8Df35"
        "7cb35003b536a33515b35f5d599426dee8ccfd1f4a4af733670664a5a112598b2b5dbf406f31276008f1de4b9150e4bebae0f734e7272fb6d4637c36dc15ca6201"
    ∷ sig "0x43c6843007180263FF3Fd97a1B5f2aEc8DfADFb1"
        "e66a0edab9b3d8e13b6dd5c278a4881aec999ca2d02a6f64059508b8cfb487705e671616b7ee736f019f79dd8774fe81d45df673c4ff7c2ed19b52654f5a972d00"
    ∷ sig "0x742c8521Dac0D1E796308575C0a2058bf21D16f1"
        "d90cbdfc9b1238d609a153ca9f743de4cdcbb9c871f09a097ee6b0f6875fc26f0ea1eaf93aa08ab1dd6af6bc1b51f1f801cf5e19b66ca87178fec3bfd5b0df8d01"
    ∷ sig "0x4396A59D2A24a28657120Ea0DE56aFCd4AAe9D21"
        "f3c02a1eaa3f84ed6b2ee43847b13182a205c7f111bfbbebc62294737e54689e6794b28efb8eb50093d67ac8a4b9aa711092553a4b4569a10103059587b7f11a00"
    ∷ sig "0x27a846dAf6b2F3E0D4c3aFE444D9f73dF6c49fDb"
        "78f811c259a9a8066d8bf0aac43900827d039f17c08d752b2d49098325ca0cd367530710d6a1d986e230a9c6a75590c5ddd4ba394fd7771aad35fe64b5e27a5200"
    ∷ sig "0xF7E42dD91953E520c16c7383b6555F887b52C2Bd"
        "69f3a60faf61ea89ae7965c93a0f31b972ab505b5ba7693b6b804547eb1d76cf69ac42eeeb177817ce4d670e945b9ef4b8eca7bfaa090c7e19bd444bce6c784401"
    ∷ sig "0x84185c23d27C8b0a7cCD219d7b086A7F10c62016"
        "358bc3c67b9de8d461b187210319eec22abe2e70d16f487c1e5001d5117a41f940e71ba736901fcc8a16f551757217eb16f5415ae91e247606349272e6d96f3500"
    ∷ sig "0x5BaA8124A0f6AE2420800D683364AC7a700E2f21"
        "f63daf9582c1b67f8ea30c99641b62534742b284918489d316f5df5af212a8c93c74382739ff3eba3a01685312812a576716c30a5c2205245ec5dcd40f9ca94300"
    ∷ sig "0x42282b0c2980c84b7A09df1C5A2Af7F99faAb959"
        "401f2b8dec7ed5e4cb406bff501246d005fd9a54fe6af098f01a6a5d61fcb89e441403dff88c632f0b504734ec9a60b68402337c62482564603d4e9c140822bf00"
    ∷ sig "0x781C33C9410e9f00fC63984987425840fC0eDf61"
        "d0312e8c88df8330c1fe1c4658f261380e088c6de790688f4e3664cce8e2a2727541f596ff3568a37076498bc24cdb1e58e8044bc88720476657570269b1600501"
    ∷ sig "0xbfb5859a8BF3553eAe249F27bD9108Ab8Fd654c6"
        "3935da087dd10408df6f433937ab0b687bd2ade5dfb97d612c7b79c33a25d0ed6e63ab95d76dfd9f0010ec970ee5bdb0336ab144f14f16314ac5f2459c39d05701"
    ∷ sig "0xd3B910e0B7e237ff561c85624d22064C159E1A7d"
        "2ee9ef6de8a8c26789d659238d0738955758e37d6c5a8c8742a9f9e9178dec165c9a3d22cf3436f74182952583fef69c1cb04b264ab45794dd5c82a1ad1e2feb01"
    ∷ sig "0xEe055C9Efa280Ed735aB453429ebeE7D7048846A"
        "a16f8fb324276ea9b95787726f65ec2bdd27b1be52b0a310f480f3cbfaff7a200e80329b652c3e147310acc21e5ce0cf7dcdf23b9c362442ec4b60d26a9a669400"
    ∷ sig "0xA9D3C070D8Da50160bDE0404Dc8279139d9BfAB1"
        "f755a751bc057d80adb49221ae006bcd196670961e1712e969d4c605c17ee01053c845d1939b94f241b4542d72ee32c53d4a5d0a970f10248ef6646d116ef87601"
    ∷ sig "0xDb288B949d4c97c890f363d75a058B45d9d8Ce48"
        "14fd5e2a62d49e2bae3a30dc585c88a0ddd7832c9f04589d6d323c493acb970143b5a87258951f41595e5ad506a87dfb9cd674e8223b5e446b31e75fdd5ff06c00"
    ∷ sig "0x44Ff0B6F0FA6e7690dd17a98BCAB92e712EFf336"
        "b2957db8cfb1d7a60f809a5ffd831b759ddb09cd4c809ab16a76c87d5bdc8dfb44f5dad9db6d317553068ae50588c955b61422477ee9e6b1a4b91a6d015e99d401"
    ∷ sig "0xBE4435D19b68b47d7b18a7A3C59145e36b009925"
        "b7be3ae784cc9707a962dc81e9e09ed0cfa4a9ab849ea96a2dc30de9d0b8606b6536ce1124e94d62c5ccef839616d5a7b9ae5274a43cc48f779473abc48d00fb00"
    ∷ sig "0xbe0e4638aca74fF2C7EF0C1D40Ce4dE8075F5567"
        "fae8b2d71f8ae14e5e733da7e234d5cccdf882addbf9a227e2e476cdbe6635392f8291d19c86f18bc19e9f8d107e285e3f9d4b70c20183400706791f4c5d4a6a01"
    ∷ sig "0x3bd604c782036648489b126855AAe5166FEbB6A4"
        "212d5d6b360d6eed8b8cd8ce553e13c13cd03c86f0d513989af4d381c205f9a8060f49e922e047dd719b581d7d825aacc1691c6dd7dbf65a0bdef13a33a2d97001"
    ∷ sig "0x582a8Fa4A8e4B05b7F743D5E399110FB97a6C06F"
        "c973d67581066e43724f4973ac3198c1b09535bbc9efaf9addbac4007f70c1241d603fecc5cc9a59a569d4e669a08a49d8321af3dbb976097d391981cef4212000"
    ∷ sig "0x33338A9EC5c336baF6CF0a3D74821b81aA7825f7"
        "289a7bd0ba47103d775358728b82e6326cfecd27744d12a3c5e300facd185efb0019d8f6ec498a0afc03f76ba60dd6f94c19d6a8b127b28a22651dd2d1cdd31701"
    ∷ sig "0xec36EcB29F99d785fC6019587Bc86C8981f08372"
        "af5c33a636877f1a78b8cbc14a802db490cae16077d8c42b45d9b203dc87588113cf99e5a6d3183ae35b89edc6066ab96f87533c12b5dad5dcdf8b8c63583b5e00"
    ∷ sig "0x120B8e72f3EB3faA1Cb320E4710Db08CA94bAF6e"
        "9aee452bf14304ed11d96a89f2e528444bf4e41050e051702bca16ee6d65c03d4f72d9a984b49ea6fdb1d6a32a42e4a35ee87294b5930d99d058e7d47340163700"
    ∷ []
