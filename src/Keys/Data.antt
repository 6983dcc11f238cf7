-- ===== src/Keys/Data.antt =====
-- keys/data: the first records of the two constants, as lists of their records.
pub mod Keys1
pub mod Sigs1
pub mod Keys2
pub mod Sigs2
pub mod Keys3
pub mod Sigs3
pub mod Keys4
pub mod Sigs4
pub mod Keys5
pub mod Sigs5
pub mod Keys6
pub mod Sigs6
pub mod Keys7
pub mod Sigs7
pub mod Keys8
pub mod Sigs8
pub mod Keys9
pub mod Sigs9
pub mod Keys10
pub mod Sigs10
pub mod Keys11
pub mod Sigs11
pub mod Keys12
pub mod Sigs12
pub mod Keys13
pub mod Sigs13
pub mod Keys14
pub mod Sigs14
use eth_proxy.Prelude.{List, ◌++◌}
use eth_proxy.Keys.Record.{KeyRecord, SignatureRecord}
use eth_proxy.Keys.Data.Keys1.{keys_1}
use eth_proxy.Keys.Data.Sigs1.{sigs_1}
use eth_proxy.Keys.Data.Keys2.{keys_2}
use eth_proxy.Keys.Data.Sigs2.{sigs_2}
use eth_proxy.Keys.Data.Keys3.{keys_3}
use eth_proxy.Keys.Data.Sigs3.{sigs_3}
use eth_proxy.Keys.Data.Keys4.{keys_4}
use eth_proxy.Keys.Data.Sigs4.{sigs_4}
use eth_proxy.Keys.Data.Keys5.{keys_5}
use eth_proxy.Keys.Data.Sigs5.{sigs_5}
use eth_proxy.Keys.Data.Keys6.{keys_6}
use eth_proxy.Keys.Data.Sigs6.{sigs_6}
use eth_proxy.Keys.Data.Keys7.{keys_7}
use eth_proxy.Keys.Data.Sigs7.{sigs_7}
use eth_proxy.Keys.Data.Keys8.{keys_8}
use eth_proxy.Keys.Data.Sigs8.{sigs_8}
use eth_proxy.Keys.Data.Keys9.{keys_9}
use eth_proxy.Keys.Data.Sigs9.{sigs_9}
use eth_proxy.Keys.Data.Keys10.{keys_10}
use eth_proxy.Keys.Data.Sigs10.{sigs_10}
use eth_proxy.Keys.Data.Keys11.{keys_11}
use eth_proxy.Keys.Data.Sigs11.{sigs_11}
use eth_proxy.Keys.Data.Keys12.{keys_12}
use eth_proxy.Keys.Data.Sigs12.{sigs_12}
use eth_proxy.Keys.Data.Keys13.{keys_13}
use eth_proxy.Keys.Data.Sigs13.{sigs_13}
use eth_proxy.Keys.Data.Keys14.{keys_14}
use eth_proxy.Keys.Data.Sigs14.{sigs_14}

abbrev pub eth_test_keys : List KeyRecord
eth_test_keys =
    keys_1
    ++ (keys_2
        ++ (keys_3
            ++ (keys_4
                ++ (keys_5
                    ++ (keys_6
                        ++ (keys_7
                            ++ (keys_8
                                ++ (keys_9
                                    ++ (keys_10
                                        ++ (keys_11 ++ (keys_12 ++ (keys_13 ++ (keys_14)))))))))))))

abbrev pub eth_test_sigs : List SignatureRecord
eth_test_sigs =
    sigs_1
    ++ (sigs_2
        ++ (sigs_3
            ++ (sigs_4
                ++ (sigs_5
                    ++ (sigs_6
                        ++ (sigs_7
                            ++ (sigs_8
                                ++ (sigs_9
                                    ++ (sigs_10
                                        ++ (sigs_11 ++ (sigs_12 ++ (sigs_13 ++ (sigs_14)))))))))))))
