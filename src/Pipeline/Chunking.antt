-- ===== src/Pipeline/Chunking.antt =====
-- pipeline-worker/chunking.py: the transcription of a long audio in chunks. The probe of a duration
-- and the transcription of a chunk are parameters, the second with the number of the attempt; a
-- transcription that raises ends the job and is not modelled. Times are milliseconds.
pub mod Order
use ai_trans_clips_tts.Prelude.{
  ℕ, ◌+◌, String, Bool, true, false, ◌&&◌, not, List, [], ◌∷◌, ◌++◌, ◌==◌, string_eq, if◌then◌else◌,
  ltb, leb, map,
}
use ai_trans_clips_tts.Prelude.Sorting.{sort}
use ai_trans_clips_tts.Pipeline.Segments.{Segment, starts_before}

pub record TranscriptionResult : Type 0 where
  pub detected_language : String
  pub segments : List Segment
  pub input_tokens : ℕ
  pub output_tokens : ℕ

-- CHUNK_DURATION_SECONDS, by default
abbrev pub chunk_duration : ℕ
chunk_duration = 180000

unfoldable pub shift : ℕ → Segment → Segment
shift offset seg = record seg { start = seg.start + offset; end = seg.end + offset }

abbrev has_none : List Segment → Bool
has_none [] = true
has_none (s ∷ rest) = false

module _ {ℓ} {Chunk : Type ℓ} (probe : Chunk → ℕ)
    (transcribe : ℕ → Chunk → TranscriptionResult) where
  -- An empty result of a chunk with content is asked for once more.
  unfoldable pub attempt : Chunk → TranscriptionResult
  attempt chunk =
      if has_none (transcribe 0 chunk).segments && ltb 3000 (probe chunk)
      then transcribe 1 chunk
      else transcribe 0 chunk

  -- `_one`
  unfoldable pub one : Chunk → ℕ → TranscriptionResult
  unfolding shift attempt
  one chunk offset =
      let res = attempt chunk in record res { segments = map (shift offset) res.segments }

  -- The offsets are the lengths of the chunks before, and each chunk is paired with its own.
  unfoldable pub run_chunks : ℕ → List Chunk → List TranscriptionResult
  unfolding one
  run_chunks acc [] = []
  run_chunks acc (chunk ∷ chunks) = one chunk acc ∷ run_chunks (acc + probe chunk) chunks

unfoldable pub all_segments : List TranscriptionResult → List Segment
all_segments [] = []
all_segments (res ∷ results) = res.segments ++ all_segments results

abbrev pub is_known : String → Bool
is_known language = not (language == "unknown") && not (language == "")

-- The first known language of the results, when it was not given.
unfoldable pub detect : String → List TranscriptionResult → String
detect detected [] = detected
detect detected (res ∷ results) =
    detect
      (if detected == "unknown" && is_known res.detected_language
        then res.detected_language
        else detected)
      results

-- The last attempt looks at the first result alone.
unfoldable pub detect_first : String → List TranscriptionResult → String
detect_first detected [] = detected
detect_first detected (res ∷ results) =
    if detected == "unknown" && not (res.detected_language == "unknown")
    then res.detected_language
    else detected

unfoldable pub sum_input : List TranscriptionResult → ℕ
sum_input [] = 0
sum_input (res ∷ results) = res.input_tokens + sum_input results

unfoldable pub sum_output : List TranscriptionResult → ℕ
sum_output [] = 0
sum_output (res ∷ results) = res.output_tokens + sum_output results

unfoldable pub merge_results : String → List TranscriptionResult → TranscriptionResult
unfolding all_segments detect detect_first sum_input sum_output
merge_results source_language results = record {
  detected_language =
      detect_first
        (detect (if source_language == "auto" then "unknown" else source_language) results) results;
  segments = sort starts_before (all_segments results);
  input_tokens = sum_input results;
  output_tokens = sum_output results;
}

-- The whole audio is transcribed at once when it is short; `chunks` are what ffmpeg cuts it into.
unfoldable pub transcribe_chunked {ℓ} :
    {Chunk : Type ℓ}
    → (Chunk → ℕ)
    → (ℕ → Chunk → TranscriptionResult)
    → Chunk
    → List Chunk
    → String
    → TranscriptionResult
unfolding run_chunks merge_results
transcribe_chunked probe transcribe audio chunks source_language =
    if leb (probe audio) chunk_duration
    then transcribe 0 audio
    else merge_results source_language (run_chunks probe transcribe 0 chunks)
