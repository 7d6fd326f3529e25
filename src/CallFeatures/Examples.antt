-- ===== src/CallFeatures/Examples.antt =====
-- modules/callFeatures/: runs at concrete inputs.
use arnacon_webrtc_service.Shared.{◌≡◌, refl, true, false, none, some, [], ◌∷◌, text}
use arnacon_webrtc_service.CallFeatures.MinuteCounter.Entries.{
  Date, number, entry_of, identities, Counter, Active,
}
use arnacon_webrtc_service.CallFeatures.MinuteCounter.Usage.{get_used_seconds, assert_can_start}
use arnacon_webrtc_service.CallFeatures.MinuteCounter.Sessions.{finish}
use arnacon_webrtc_service.CallFeatures.MinuteCounter.Finishes.{
  get_used_seconds-finish, get_used_seconds-finish_later, finish-finish,
}

abbrev may_30 : Date
may_30 = record { year = 2025; month = 5; day = 30 }

abbrev may_31 : Date
may_31 = record { year = 2025; month = 5; day = 31 }

abbrev june_1 : Date
june_1 = record { year = 2025; month = 6; day = 1 }

-- Alice has called 100 seconds in May.
abbrev counter : Counter
counter = record {
  has_file = true;
  file = some (
      (
        text "pbx",
        identities (
            (
              text "alice",
              entry_of (record {
                total_seconds = number 100;
                last_updated = text "2025-05-02";
                custom_second_cap = none;
              }),
            )
            ∷ []),
      )
      ∷ []);
}

-- A call of hers, with the names as they were given, from 1 s to 6.5 s.
abbrev active : Active
active = record {
  service_id = text " pbx";
  identity = text "Alice ";
  started_at = 1000;
  finished = false;
}

get_used_seconds-finish_example :
    (get_used_seconds may_30
      (text " pbx")
      (text "Alice ")
      (finish may_30 6500 (some active) counter).2).0
    ≡ 106
unfolding get_used_seconds finish
get_used_seconds-finish_example = get_used_seconds-finish may_30 6500 active counter

get_used_seconds-finish_later_example :
    (get_used_seconds june_1
      (text " pbx")
      (text "Alice ")
      (finish may_30 6500 (some active) counter).2).0
    ≡ 0
unfolding get_used_seconds finish
get_used_seconds-finish_later_example =
    get_used_seconds-finish_later may_30 june_1 6500 5 active counter refl

same_month :
    (get_used_seconds may_31
      (text "pbx")
      (text "alice")
      (finish may_30 6500 (some active) counter).2).0
    ≡ 106
unfolding get_used_seconds finish
same_month = refl

finish-finish_example :
    finish may_31 9000
      (finish may_30 6500 (some active) counter).1
      (finish may_30 6500 (some active) counter).2
    ≡ (0, some (record active { finished = true }), (finish may_30 6500 (some active) counter).2)
unfolding finish
finish-finish_example = finish-finish may_30 may_31 6500 9000 (some active) counter

-- A limit of 100 seconds is reached, one of 101 is not.
reached : (assert_can_start may_30 (text "pbx") (text "alice") (number 100) counter).0 ≡ false
unfolding assert_can_start
reached = refl

not_reached : (assert_can_start may_30 (text "pbx") (text "alice") (number 101) counter).0 ≡ true
unfolding assert_can_start
not_reached = refl
