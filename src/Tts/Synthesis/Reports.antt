-- ===== src/Tts/Synthesis/Reports.antt =====
-- The progress that app/services/synthesis.py reports.
use ai_trans_clips_tts.Prelude.{
  ℕ, zero, suc, ◌+◌, ◌*◌, ◌/◌, ◌≤◌, ◌<◌, ◌≡◌, refl, inl, inr, Bool, true, false, List, [], ◌∷◌,
  ◌++◌, length, arith, Bool-cases, All, All-append, ◌||◌, ◌==◌, list_eq, nat_eq, Option,
}
use native.Mathlib.Nat.{div-lt_iff_lt-mul}
use ai_trans_clips_tts.Prelude.Text.{Text, codes, strip}
use ai_trans_clips_tts.Tts.Chunking.{split_text, is_filled}
use ai_trans_clips_tts.Tts.JobRunner.{Outcome, returned, raised}
use ai_trans_clips_tts.Tts.Synthesis.{
  Call, Models, Settings, speak, heard, stage_text, count_text, conclude, merge_after, generate_tts,
  synth_vieneu, synth_kokoro, format_of, is_vietnamese, speaker_of, resolve_kokoro_voice,
}

-- From 10 to 89 percent.
abbrev pub IsPartial : Call → Type 0
IsPartial (percent, stage) = (10 ≤ percent) × (percent < 90)

share_bound : (i n : ℕ) → i < n → i * 80 / n < 80
share_bound i zero h = absurd (omega (arith, h))
share_bound i (suc n) h = (div-lt_iff_lt-mul (omega arith)).1 (omega (arith, h))

heard-IsPartial :
    (engine : Text) (call : Call) (answer : Outcome Bool) (later : List Call × Outcome (Unit {0}))
    → IsPartial call
    → All IsPartial later.0
    → All IsPartial (heard engine call answer later).0
unfolding heard
heard-IsPartial engine call (raised message cls) later h k = (h, tt)
heard-IsPartial engine call (returned false) later h k = (h, tt)
heard-IsPartial engine call (returned true) (calls, outcome) h k = (h, k)

speak-IsPartial :
    (engine : Text) (say : Text → Outcome Bool) (i n : ℕ) (chunks : List Text)
    → i + length chunks ≤ n
    → All IsPartial (speak engine say i n chunks).0
unfolding speak
speak-IsPartial engine say i n [] h = tt
speak-IsPartial engine say i n (chunk ∷ chunks) h =
    let below : i * 80 / n < 80 = share_bound i n (omega (arith, h)) in
    let now : IsPartial (10 + i * 80 / n, stage_text engine i n) =
      (omega arith, omega (arith, below)) in
    heard-IsPartial (engine ++ codes " produced no audio for chunk " ++ count_text i n)
      (10 + i * 80 / n, stage_text engine i n) (say chunk) (speak engine say (suc i) n chunks) now
      (speak-IsPartial engine say (suc i) n chunks (omega (arith, h)))

-- All the reports are partial, and then the last one and the path, or an exception.
abbrev pub IsReported : Text → List Call × Outcome Text → Type 0
IsReported dest (calls, returned path) =
    (path ≡ dest)
    × ((partial : List Call) × (calls ≡ partial ++ (100, codes "Completed") ∷ [])
        × All IsPartial partial)
IsReported dest (calls, raised message cls) = All IsPartial calls

conclude-IsReported :
    (dest : Text) (calls : List Call) (merged : Outcome (Unit {0}))
    → All IsPartial calls
    → IsReported dest (calls ++ (conclude dest merged).0, (conclude dest merged).1)
unfolding conclude
conclude-IsReported dest calls (raised message cls) h = All-append IsPartial calls [] h tt
conclude-IsReported dest calls (returned u) h = (refl, (calls, refl, h))

merge_after-IsReported {ℓ} :
    {Voice : Type ℓ} (m : Models Voice) (n : ℕ) (dest fmt : Text)
    (result : List Call × Outcome (Unit {0}))
    → All IsPartial result.0
    → IsReported dest (merge_after m n dest fmt result)
unfolding merge_after
merge_after-IsReported m n dest fmt (calls, raised message cls) h = h
merge_after-IsReported m n dest fmt (calls, returned u) h =
    conclude-IsReported dest calls (m.merge n dest fmt) h

spoken-IsReported {ℓ} :
    {Voice : Type ℓ} (m : Models Voice) (dest fmt engine : Text) (say : Text → Outcome Bool)
    (chunks : List Text)
    → IsReported dest
        (merge_after m (length chunks) dest fmt (speak engine say 0 (length chunks) chunks))
spoken-IsReported m dest fmt engine say chunks =
    merge_after-IsReported m (length chunks) dest fmt (speak engine say 0 (length chunks) chunks)
      (speak-IsPartial engine say 0 (length chunks) chunks (omega arith))

-- However the synthesis ends: every report on the way is at least 10 and less than 90 percent; when
-- it returns, it returns the path that was asked for, and its last report is 100 percent; when it
-- raises, on the input, in a model, on a missing file or in the merge, 100 percent is not reported.
pub generate_tts-IsReported {ℓ} :
    {Voice : Type ℓ} (m : Models Voice) (settings : Settings) (text language : Text)
    (voice : Option Text) (dest : Text) (fmt : Option Text) (voice_data : Option Voice)
    → IsReported dest (generate_tts m settings text language voice dest fmt voice_data)
unfolding generate_tts synth_vieneu synth_kokoro
generate_tts-IsReported m settings text language voice dest fmt voice_data =
    elim (Bool-cases (is_filled (strip text))) [
      | inr empty ↦ rw empty tt
      | inl filled ↦
          elim (Bool-cases
            (format_of settings fmt == codes "mp3" || format_of settings fmt == codes "wav")) [
              | inr other ↦ rw (filled, other) tt
              | inl known ↦ elim (Bool-cases (is_vietnamese language)) [
                | inl vi ↦
                    rw (filled, known, vi)
                      (spoken-IsReported m dest (format_of settings fmt) (codes "vieneu")
                        (λ chunk. m.vieneu chunk (speaker_of settings voice_data voice))
                        (split_text (strip text) settings.vieneu_chunk_chars))
                | inr other ↦
                    rw (filled, known, other)
                      (spoken-IsReported m dest (format_of settings fmt) (codes "kokoro")
                        (λ chunk. m.kokoro language chunk (resolve_kokoro_voice language voice))
                        (split_text (strip text) settings.kokoro_chunk_chars))
              ]
            ]
    ]
