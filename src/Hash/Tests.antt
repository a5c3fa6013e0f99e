-- ===== src/Hash/Tests.antt =====
-- The streaming theorems at concrete inputs.
use valubench.Prelude.{◌≡◌, refl, [], ◌∷◌, replicate}
use valubench.Hash.Stream.{Ctx, final, init}
use valubench.Hash.Stream.Spec.{digest}
use valubench.Hash.Stream.Final.{update_all, final-update_all}
use valubench.Hash.Md5.{md5_engine}
use valubench.Hash.Md5.Law.{md5-IsEngine}

abbrev used_ctx : Ctx
used_ctx = record { state = []; total_len = 3; buf = replicate 64 255; buf_len = 3 }

-- "abc" in two pieces.
final-update_all_example :
    (final md5_engine
      (update_all md5_engine (init md5_engine used_ctx) ((0x61 ∷ []) ∷ (0x62 ∷ 0x63 ∷ []) ∷ []))).1
    ≡ digest md5_engine (0x61 ∷ 0x62 ∷ 0x63 ∷ [])
final-update_all_example =
    final-update_all md5_engine md5-IsEngine used_ctx ((0x61 ∷ []) ∷ (0x62 ∷ 0x63 ∷ []) ∷ []) refl
