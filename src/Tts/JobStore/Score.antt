-- ===== src/Tts/JobStore/Score.antt =====
-- The scores of the queue of app/services/job_store.py.
use ai_trans_clips_tts.Prelude.{ℕ, ◌+◌, ◌*◌, ◌^◌, ◌≤◌, ◌<◌, ◌≡◌, arith}
use ai_trans_clips_tts.Prelude.Int.{ℤ, pos_part, neg_part, ltb_ℤ}
use ai_trans_clips_tts.Prelude.Text.{Text}
use ai_trans_clips_tts.Tts.JobStore.{score, negated, score_scale, entry_leb}

-- With priorities from -1000 to 1000 and as many as 10^12 jobs, every score is an integer that a
-- double represents exactly.
pub score_bounds :
    (priority : ℤ) (seq : ℕ)
    → pos_part priority ≤ 1000
    → neg_part priority ≤ 1000
    → seq ≤ score_scale
    → (pos_part (score priority seq) < 2 ^ 53) × (neg_part (score priority seq) < 2 ^ 53)
unfolding score
score_bounds p seq h k l = ground arith

pub score_parts :
    (p : ℤ) (seq : ℕ)
    → pos_part (score p seq) + (neg_part p * score_scale + seq)
      ≡ neg_part (score p seq) + pos_part p * score_scale
unfolding score
score_parts p seq = ground arith

pub negated_parts : (a : ℤ) → pos_part (negated a) + pos_part a ≡ neg_part (negated a) + neg_part a
unfolding negated
negated_parts a = ground arith

-- A job that comes later than another has the smaller key exactly when its priority is higher.
pub key_order :
    (p q : ℤ) (s t : ℕ)
    → 0 < s
    → s < t
    → t ≤ score_scale
    → ltb_ℤ (negated (score q t)) (negated (score p s)) ≡ ltb_ℤ p q
key_order p q s t g h k =
    ground (
      arith,
      score_parts p s,
      score_parts q t,
      negated_parts (score p s),
      negated_parts (score q t),
    )

pub entry_leb_order :
    (p q : ℤ) (i j : Text) (s t : ℕ)
    → 0 < s
    → s < t
    → t ≤ score_scale
    → entry_leb (negated (score q t), j) (negated (score p s), i) ≡ ltb_ℤ p q
unfolding entry_leb
entry_leb_order p q i j s t g h k =
    ground (
      arith,
      score_parts p s,
      score_parts q t,
      negated_parts (score p s),
      negated_parts (score q t),
    )
