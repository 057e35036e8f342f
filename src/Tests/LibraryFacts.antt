-- ===== src/Tests/LibraryFacts.antt =====
-- The theorems on stamps, operators and libraries at concrete inputs.
use mapit.Outcome.{Ends}
use mapit.Serializer.History.{Preserves}
use mapit.OperatorModules.Delete.{string, operate_delete}
use mapit.OperatorModules.Copy.{operate_copy}
use mapit.OperatorModules.History.{operate_delete-operate_copy-keeps}
use mapit.Base.{codes, ◌∷◌, ◌++◌, ◌<◌, some, true, false, ◌≡◌, ◌↔◌, arith}
use mapit.Time.{from_msg, to_msg, time_round_trip}
use mapit.EntityLibrary.{layertype_name}
use mapit.EntityLibrary.Names.{is_among, layertype_name-IsSafe}
use mapit.Operators.{Environment, new_environment, no_description}
use mapit.Workspace.{Workspace}
use mapit.Tests.Data.{codec, filled}

time_round_trip_example :
    (from_msg (to_msg 1500000000) ≡ 1500000000)
    × ((to_msg 1500000000).nsec < 1000000000)
    × ((5 < 1000000000)
        ↔ (to_msg (from_msg (record { sec = 3; nsec = 5 })) ≡ record { sec = 3; nsec = 5 }))
time_round_trip_example =
    time_round_trip 1500000000 (record { sec = 3; nsec = 5 }) (omega arith) (omega arith)

layertype_name-IsSafe_example :
    (is_among 46 (layertype_name (codes "../a")) ≡ false)
    × (is_among 47 (layertype_name (codes "../a")) ≡ false)
    × (is_among 92 (layertype_name (codes "../a")) ≡ false)
    × (is_among 58 (layertype_name (codes "../a" ++ (58 ∷ codes "b"))) ≡ true)
layertype_name-IsSafe_example = layertype_name-IsSafe (codes "../a") (codes "b")

-- The targets of the tests are the texts of the parameters themselves.
abbrev deleting : Environment Workspace
deleting =
    new_environment (record { operator = no_description.operator; params = codes "a" }) filled

operate_delete-operate_copy-keeps_example :
    Ends (λ r. Preserves codec filled.disk r.1.disk) (operate_delete codec 5 string deleting)
    × Ends
        (λ r. Preserves codec filled.disk r.1.disk)
        (operate_copy codec (λ type. true) 5 (λ s. some (s, codes "b")) deleting)
operate_delete-operate_copy-keeps_example =
    operate_delete-operate_copy-keeps codec (λ type. true) 5 string (λ s. some (s, codes "b"))
      deleting
