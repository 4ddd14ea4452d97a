-- ===== src/Trx/Tests.antt =====
-- Runs of the amount conversions; the inputs of web/js-src/trxamount.test.js among them.
use ucollection.Base.{codes, ◌≡◌, ◌↔◌, refl, trim, arith}
use ucollection.Base.Decimal.{to_string}
use ucollection.Base.Result.{ok, err, amount_not_positive, amount_decimals, amount_format}
use ucollection.Trx.{sun_to_trx, trx_to_sun, combine}
use ucollection.Trx.Exact.{Denotes, trx_to_sun_exact}
use ucollection.Trx.RoundTrip.{trx_to_sun-sun_to_trx}

sun_to_trx_runs :
    (sun_to_trx 3000000 ≡ codes "3")
    × (sun_to_trx 3500000 ≡ codes "3.5")
    × (sun_to_trx 1 ≡ codes "0.000001")
    × (sun_to_trx 17000000 ≡ codes "17")
    × (sun_to_trx 0 ≡ codes "0")
unfolding sun_to_trx to_string
sun_to_trx_runs = (refl, refl, refl, refl, refl)

trx_to_sun_runs :
    (trx_to_sun (codes " 3.5 ") ≡ ok 3500000)
    × (trx_to_sun (codes ".5") ≡ ok 500000)
    × (trx_to_sun (codes "-1") ≡ err amount_not_positive)
    × (trx_to_sun (codes "0") ≡ err amount_not_positive)
    × (trx_to_sun (codes "1.0000001") ≡ err amount_decimals)
    × (trx_to_sun (codes "abc") ≡ err amount_format)
    × (trx_to_sun (codes "1.5.9") ≡ ok 1500000)
unfolding trx_to_sun combine trim
trx_to_sun_runs = (refl, refl, refl, refl, refl, refl, refl)

trx_to_sun-sun_to_trx_example : trx_to_sun (sun_to_trx 3500000) ≡ ok 3500000
trx_to_sun-sun_to_trx_example = trx_to_sun-sun_to_trx 3500000 (omega arith) (omega arith)

-- Two dots: the nine is not read.
trx_to_sun_exact_example :
    (trx_to_sun (codes "1.5.9") ≡ ok 1500000) ↔ Denotes (codes "1.5.9") 1500000
trx_to_sun_exact_example = trx_to_sun_exact (codes "1.5.9") 1500000
