-- ===== src/Pipeline/Align.antt =====
-- pipeline-worker/align.py and the aligning stage of pipeline-worker/pipeline.py: the onsets of the
-- segments, the intervals of speech, and the places of the clips. Times are milliseconds.
pub mod Onsets
pub mod Clips
use ai_trans_clips_tts.Prelude.{
  ℕ, ◌+◌, ◌-◌, ◌*◌, Bool, true, false, ◌&&◌, List, [], ◌∷◌, ◌++◌, if◌then◌else◌, ltb, leb, max, map,
}

-- An interval of the audio, from its start to its end.
abbrev pub Interval : Type 0
Interval = ℕ × ℕ

-- The body of the outer loop of `refine_onsets`, over the intervals of speech.
unfoldable pub refine : ℕ → ℕ → List Interval → ℕ
refine window st [] = st
refine window st ((a, b) ∷ speech) =
    if leb a st && leb st b
    then (if leb (st - a) window then a else st)
    else if ltb st a && leb (a - st) window
    then a
    else refine window st speech

unfoldable pub refine_onsets : ℕ → List ℕ → List Interval → List ℕ
unfolding refine
refine_onsets window raw_starts speech = map (λ st. refine window st speech) raw_starts

-- The loop of `speech_map` over the starts and ends of silence, as far as both lists go, and what it
-- leaves in `prev`.
unfoldable pub sound_between : ℕ → List ℕ → List ℕ → List Interval × ℕ
sound_between prev [] ends = ([], prev)
sound_between prev (s ∷ starts) [] = ([], prev)
sound_between prev (s ∷ starts) (e ∷ ends) =
    let (intervals, last) = sound_between (max prev e) starts ends in
    (if ltb prev s then (prev, s) ∷ intervals else intervals, last)

-- `speech_map`, from what ffmpeg reports and the length of the audio.
unfoldable pub speech_map : List ℕ → List ℕ → ℕ → List Interval
unfolding sound_between
speech_map starts ends total =
    let (intervals, last) = sound_between 0 starts ends in
    if ltb (last + 50) total then intervals ++ (last, total) ∷ [] else intervals

-- A clip on the output's clock: where it starts and how long it is.
abbrev pub Clip : Type 0
Clip = ℕ × ℕ

-- The loop of the aligning stage over the starts of the segments and the lengths of their clips,
-- `min(len(segs), len(tts_paths))` of them. `factor` is DUB_SLOW_FACTOR in hundredths, and the
-- output's clock counts hundredths of a millisecond.
unfoldable pub place_clips : ℕ → ℕ → List ℕ → List ℕ → List Clip
place_clips factor cursor [] out_lens = []
place_clips factor cursor (start ∷ starts) [] = []
place_clips factor cursor (start ∷ starts) (out_len ∷ out_lens) =
    let pos = max (start * factor) cursor in
    (pos, out_len) ∷ place_clips factor (pos + out_len) starts out_lens
