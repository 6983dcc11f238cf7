-- ===== src/Keys/Data/Keys13.antt =====
-- keys/data/eth_keys.go, lines 1780 to 1927.
use eth_proxy.Prelude.{List, [], ◌∷◌}
use eth_proxy.Keys.Record.{KeyRecord, key}

abbrev pub keys_13 : List KeyRecord
keys_13 =
    key "d7a1a9fcccd8752e4ea199a8992c5d30727d613f1080f60bb8a3d6a1d2160040"
      "0x355823dc8c4AB19b1a89FEE36d3603e72c977e01"
    ∷ key "cacff5902f3e8f5298b1f87648305102775e07f66ad98a7d8b8d2e3db081bd54"
        "0xe53B290Ac76C875e627AA2B0786d4BF262ea49f4"
    ∷ key "9d728ffbbc41399de6ae2a300a46473f361dbf4d67f5695d72d994ed2a4d9696"
        "0xE2Df58479De5EBFA486567436e7D373F4065bFC4"
    ∷ key "0ccd944275049fa845024b95dfb53bb9e26720a551b1149c7beddf6163306102"
        "0x8B2560f0506B775ACeF8946AAaFccf8C72786431"
    ∷ key "43cf5a799adaded9a8122824a04735aafd989b7093714b57441dd02b34294179"
        "0xbf0c0380703F412acA72549683E26000CAe99C64"
    ∷ key "8ca0a3773d89ef1283c012538f6c4ad4b088f60000102359d2fca2344e23eb1e"
        "0x1407f292Cf18f4a0607502b784Bc9c0E0e3E5974"
    ∷ key "bb4ec4d5122b37c8a2b1bbe23bc9db2ac9a8681d7b02325f605ec60cab7cc1c0"
        "0x3AfEa04c1B67cc9C97d3Be6ffED62cE5158d940F"
    ∷ key "9af900804ed89614e1927b4985f968768af9965c57915bf5738eb99b72d5c900"
        "0xCe628E6fB7043bf1F4552aB18d7b906B70f26176"
    ∷ key "5ae3f003af9cfe6393bee34135a9da01c218935d4bab817dfee43aa415880b92"
        "0x9765C0ab8314EBF09829DA20f1Fe007059E8688d"
    ∷ key "9039fe7ba091f3769b551f7bd7daf97eaa7dc2976300f4f60ee07704a814081c"
        "0xCEb18158b8429E71E3745eb6c3f5dab880BC624d"
    ∷ key "c0fb384cefca70b5a18d496286bd5d9f9dd7ced70838fe4d457ef0932a803c6b"
        "0x274c6eD8d9887e1B4039A7f2a4D8A2dD827D2c48"
    ∷ key "f750151e1c05e664d1d328ae8c6e1e601271a2e6a0543c8d7bdf861ef793dd35"
        "0x4775F2CCc279051A63db2b35D1E4d1f38FDB8162"
    ∷ key "bd99bebcfb8cd3d9babb141129a76f80f34217d5c2b2cb0cb541ebcf8bdeb425"
        "0x06634019Dbf6c8a8377596D71E2fabA4b89de1e0"
    ∷ key "95a7559a23f77409a202a0740c87bb8cb48def51eccbae03060043095555a105"
        "0xCeD8771d5015f352AfaD899c24188fB43E810449"
    ∷ key "70d8a1b0e691605f3b27fd42439cc252d5462c22a967355f0ad8765a41554b05"
        "0x77d179739A5E1803eee4CDc9A67e8463D9427193"
    ∷ key "515271550c4db58813b43f2d08362866bb078c0167490f9d5b293b7c9b7682b8"
        "0x1Db82ef4f14efecd75286ec9edCcAB63Cb01f773"
    ∷ key "be0bc3e4bc7fa24e6beac3737cd0fd1efc3d129db806398c8fdf7f20be0d72cd"
        "0xEad0E2d97fDc71c729B29ECd5730b0B313514D14"
    ∷ key "231a33c269246e7779fac1d627c43dc4ad10982698e0b290a818ca8d93dfb340"
        "0x045e6316A8176B1c9E32b44C321b04Ef88F6FA7e"
    ∷ key "fc3050d3dec0b16657d555312a0bda7905860cc0c608992d308c32629f7776d8"
        "0x5140D82c1150f010a58DD81167B3e37bfb55fCCB"
    ∷ key "cb0ee6cf5c7b0078ca1c0a95395155ed479986723cfd766ff2f4043c7ee20055"
        "0xB4f54464Ad79d5BF834dDEC476afdf0fbA480348"
    ∷ key "a065cd4b2c4c236ed221690dd9e9156d4afbeb253a5465d73f808c34e1d7c8b4"
        "0xbAECd88451F87cEc6285f7Df66C5f50325f7F6d8"
    ∷ key "bd6cf6ab6191909ee3aac2ab62ff68c6c1c74f007401670df31d23aed8efbe44"
        "0xc8950a7E2db4f66CcD4F2Bdd2afBB9Ead25F22D5"
    ∷ key "8fbbe4b676590bc40ba0e38b0164f95cbfea65f86757317f496ab66520b32fb1"
        "0x5f40Cf191d753e01f4B7D36E78670a7A5e4A8F96"
    ∷ key "1fdd85317b7205176f23908646d4a6b1e5e381383934ac0642538d660c879700"
        "0xE4668459dB4AA416dA91EfDf54f62AD6C25Ff519"
    ∷ key "d6618bd6c9799a3e78f74833cfb0603145443d67997b09013e8fc00be488c849"
        "0xE982217b3f8828BefaE21B5BFDB708d2F9E2aeC5"
    ∷ key "4736df9411f1fcafc9c4d182bb69cc0a05d9303e22c481fbc1d0f1b5c45af242"
        "0x03f9D89e7D00256AFaBF1762F6c538bE98D86aa5"
    ∷ key "8ece0687db9a2625b7c8b76c508dc8516c2292c6d8a503576d941d32b649627b"
        "0x0397377cDB8557921C47f44c7E015C30E06201Dd"
    ∷ key "319d17b04a98e1c84c9ce3a56a7323f728b84e6092dafda35085f7f794252935"
        "0xd29AFE35eaBd90C76202f6185a3D845048255f72"
    ∷ key "6ca0f21252abbfe0302da6098f22ddf545191589dd03c60ed071fb5565b30760"
        "0xA9f5641CfD87e2AC987254dBA98705047D8b7254"
    ∷ key "7ed7867d5a4cf32b48d107acee6802b50390f25332acfd2d8eb5e880634eecb6"
        "0xC6034Fafa97171b2bD8ef685E2D8ed06980a8550"
    ∷ key "aee76eb9f10bb19b32988c5f1771a924df867f7a956ae38d69bcaccb658c7daa"
        "0x879b71511738F3713B79E2B92C2dC0Bf0293C442"
    ∷ key "32e95c832cd921e681a3cb2a768459fa77ec2a7da3a82d874c54fa59a30493c1"
        "0x8b28ecCeD08ff4652c15da4C07CCf9A7F30f708C"
    ∷ key "b23e9928d8292b0626fe94bcd64cf882f40a3004f9432574a85126cf3602b1f2"
        "0xf41922574827E7167dB376cc8BeaC0c07896d226"
    ∷ key "d2c1715c02eb9261054768ed839620f3e3e739fba96faa5bd0bacff7c91ff4b2"
        "0x1878A1929E8c19c92B0bF4cddC0782EC4e986751"
    ∷ key "a778ce08476824a9cabc63b41782abb91bf80cce4dd31c862c7df2aac24a74c4"
        "0xc4b6C4A70318D55B3bbc910d9CBbD8D11a67C6d1"
    ∷ key "71c19bbdbe46b8ab9ad33fa766690460b283e57ecc761bae6b2eeb2aadd0d917"
        "0x6D8CB10A13CF8e7bBfFE23fcF90f5b2D5A5Df835"
    ∷ key "1374f7ddf5ee9f13d239d4811be9bc081c5b2f812121d8933820515fbb7229d7"
        "0x08F2fc6DFadCF423Bf5D8FCcc45d4Ca3272CB428"
    ∷ []
