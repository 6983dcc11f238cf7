-- ===== src/Keys/Data/Keys10.antt =====
-- keys/data/eth_keys.go, lines 1336 to 1483.
use eth_proxy.Prelude.{List, [], ◌∷◌}
use eth_proxy.Keys.Record.{KeyRecord, key}

abbrev pub keys_10 : List KeyRecord
keys_10 =
    key "e04f8a8a33ad9ffd7c7126462bea4b08d9968e99ba9c02e936d66acdc7131789"
      "0xa0A39311d0aDa26c763C7E39C48be2841169FeC6"
    ∷ key "2afbeb968a25b8f606ebdb71660d09baf64dafc9d0f91c3433440d63f9fd49d3"
        "0xcCF95b4ABaebd44eaE9119f1a5B969c054119f65"
    ∷ key "579dce71943cdd45ed8de2693f49704fd7390b790f6dcce0f289f7955e8b9c4b"
        "0xef204E7B3392984d9634DC3F979B77E515455E67"
    ∷ key "59b3aaaccb207a86dc0d933fafe31734c2e093bc54c1208c20ae3e5c2a6dd1bc"
        "0xd4bA506dD4551f91C6ede0Fcb487418C0854a79f"
    ∷ key "a84ee0536944d4330befc0dbbb6f329ec6eb975cf04796baacc73f2f2b1e49aa"
        "0xcAC49b2fD05A6b9b84815bd1a1D29a63E17bEF68"
    ∷ key "ce03becb488702953b1773a37605e3f7edfbaab0f68fd0b66f94809d50ff4aa9"
        "0x5C58F20B52991875FAb03eA105AC670fdBd91E2A"
    ∷ key "17893aeba4936d1979f9a8e49635c559c88c7ae573161bed85d9cc159e890ef0"
        "0x0a9bD23F607cf6dCd201430D29eDbbe25d64959e"
    ∷ key "4984cec38aee1a272419301837253cd31aea75fef1cc0322386b00f25edf3ea5"
        "0xe23A56E57de9f5515e81B95997aDDa64eC8D3b73"
    ∷ key "845c00006bea777f739a2e2ac0d4fe9d42fe0e6e8edc7531a0afc8a9e831d4a1"
        "0xA96EE9869F63B48527748b51Dd754b928905E467"
    ∷ key "dc37eb4b24ee63357e388a9dcad39192284fcec741ec47d30d60649386eeed45"
        "0x92687b121b4e738f74e46E2A9E652e18103C79A4"
    ∷ key "d708d1298c1a4da959c56e7c5f16fad7dcf6a2c25166f069f5df8b27fbcbfb7c"
        "0x43f4AdbC85bb6523fa8A30489927D823e5382029"
    ∷ key "a821dea05dfce0ec313b78526f9aa4b57a6f5c49841633bca6e9474180f856b5"
        "0xF7cDEED8B56B976fCE9F815bC267B0B170E6b028"
    ∷ key "b462a56d3a40bc371fc8222e0b80e5ff5e53156fbdc98fb7d29539a5c2b9afd1"
        "0xA08843e01A071eD842Bbd080194E61da1b660c4f"
    ∷ key "91eafaa9d4eb0061340f4a7344928c9047971cb8c2be93ab1ce19df79e979d0f"
        "0xe230134e284c59BD1f7B1b4f5b31Cff0c52F5e8D"
    ∷ key "52cf49c14a305d5cb081aaec1e3e9009a52a5033810e90da6c4e05d1e77bc38b"
        "0x96e0ab7DCa5ee9a451Ed707757d49180317E1f65"
    ∷ key "b4b06ad8d646247c07f547f8f8b40ab88928961ef628b89a2635da12eda62626"
        "0x5478c5497E4B2fF884FC82ea0bc8687cBDa1A539"
    ∷ key "87f242dc7bc6ef3d8d7eefa62eac7ebb1d3e1a8158ad2c675c65fd91f42d0b40"
        "0xC79BFEce81c554c719A02E6D1150B7753af0B95D"
    ∷ key "a15ece952e40000136ec61b2460d4065a2b1ebea9eb06dffc440516edbd27492"
        "0xb8680F72c5d575141717495aA55AfCDda1A64E57"
    ∷ key "1d3619715633090ae393f9dfe1ee4695f7763ead38e0a89f66b9a1ccd1d3dd58"
        "0xcE18a51FE77B201f7CA2Fcadc3404bF9645e9A5b"
    ∷ key "09e091c1b7a4390497bdabe456f139238990e5879c86f45950c65b60bf7ccf2e"
        "0x4b9C1CA41f84c620DaF23450Ab4f5b8925C93c7C"
    ∷ key "e23a998ed410de2de6809e1164c985f104955618ceacd1990c99c40ddcff5a90"
        "0x876d55f0E92c931e35d6Bde84D407E0D0FdfA53c"
    ∷ key "99b2893951aa012ac32d5a1b50b225a9c9ad0e874fcc70ca74bd7a21a69c0385"
        "0x73B9D0DB0CD48dE4ef1917C24ad048735DC2b641"
    ∷ key "8387c021865c05a6ee3caa4a5a03386e99f69a5012c573ce8a961551a11a7758"
        "0x85907b3A350C57fA5023fA8B2b365005b27Ada70"
    ∷ key "d46adf42af8a6e050fd709329a365efae9f5cb08856d9a930723410fd60163f6"
        "0xFE6457bf8530AdE37451ec83fD583A85D0FE5F1f"
    ∷ key "ccda001dac399b1f3cd4517c9815b500fd90ca0fe2dd3351c481d8a6346154e2"
        "0x8Ee738E3C969a103c528D10BB9eE253aAB9cd414"
    ∷ key "68f16bfbb507a847c2bf453fd1d558725caa83d6a30ceef24f33de7ec539c207"
        "0x5Bd954C676710D9A990a7Ef48257db0758d5646B"
    ∷ key "6637be5014eb8a888ed8d8b7e0687cc18e2f97b93d53c619c1031b5289971ed0"
        "0x0aCF9d8e8dF0608a24a4160b3E0609Cb6b859e70"
    ∷ key "cba1082a32ef9e9ac015bd955875ad67a6590998e397befc43659dc4dc6e316b"
        "0x100c511F17B9F50Cf5cA36CeBa79acF3E7085BF5"
    ∷ key "4b01d4d5309ef7f900c4278b7e1e8092d469d1e9f804fdc16158058f9c33af87"
        "0x9421Fbb83D7E55C1DDeA652c1735FC70D93B545C"
    ∷ key "69c85ad92c435a0fbbced8f2989cf81ca5c88b65b08c09b40ad265e83c4db888"
        "0xCA711cd959C7e57a74336e9DeA23dfC6860E8d15"
    ∷ key "a7efb7d7817e7acf5d86fbf512ac5c1989be9e5589d91fa6f43632a1f5c7d976"
        "0xb1B7D0d1eE3599b473ED7905d5495899bD304460"
    ∷ key "5ab807b065b860eeccfe6746bfe254da45cc7b6d7b6efb3fb11e041599297070"
        "0x183B878d08519cF3996eDA512cF9C27D13887198"
    ∷ key "f214f2b1971d204329f57177506f0dd987e6b5b41f59a84f1130df047d2a209d"
        "0xCA75212398a57485A363d2F439e4Eb44E5104136"
    ∷ key "13510306101961cdae8f71dbe9116d5c40ea8f6f0d0721301aa307f1fe70600c"
        "0xF754816460BDE639CF2C92228F067AB7E213e7E2"
    ∷ key "61d9996e1ffba577086cb0d8bfd6d784c40c20b909e2452b7c8fe65858763275"
        "0x735fffa7042874B0a9306B56558d2EdaC91e8C4d"
    ∷ key "890ecacf66134fe842a45e013035be938cd78b610e6febbb706b0d13c69a28fd"
        "0xa9ab6F57b242B353f84caE74655aa5a6b393Afb4"
    ∷ key "79096681e7721fb291925afa06728335261d22e900f380fc8675bf03d0edc5cf"
        "0xe7d9f871Da0d3207f95058029b7e43c3069735fb"
    ∷ []
