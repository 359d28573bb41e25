-- ===== src/Pipeline/Speech/Reuse.antt =====
-- `_call_tts` of pipeline-worker/tts.py, which keeps its speech in the cache of
-- pipeline-worker/cache.py. What it writes to the file of the clip is its result.
use ai_trans_clips_tts.Prelude.{
  ℕ, ◌-◌, ◌≤◌, ◌≡◌, refl, sym, subst, ◌∙◌, Option, none, some, List, [], ◌∷◌, length, le→leb,
  if◌then◌else◌, ◌==◌, list_eq, nat_eq,
}
use ai_trans_clips_tts.Prelude.Dict.{IsDict}
use ai_trans_clips_tts.Prelude.Text.{Text, codes}
use ai_trans_clips_tts.Pipeline.Errors.{Result, ok, raised}
use ai_trans_clips_tts.Pipeline.Cache.{Limits, Cache, get_cache, put_cache}
use ai_trans_clips_tts.Pipeline.Cache.Hits.{IsNewest, get_cache-put_cache}
use ai_trans_clips_tts.Pipeline.Speech.{Client, Speech}
use ai_trans_clips_tts.Pipeline.Speech.Jobs.{synthesize}

unfoldable pub engine_of : Text → Text
engine_of language = if language == codes "vi" then codes "vieneu" else codes "kokoro"

-- The cache and its key function, and the time by the number of the next request.
module _ (client : Client) (limits : Limits) (cache_key : Text → Text → Option Text → Text → Text)
    (clock : ℕ → ℕ) where
  abbrev pub key_of : Speech → Text
  key_of speech = cache_key speech.text speech.language speech.voice (engine_of speech.language)

  abbrev pub keep :
      Speech → Cache → Option (Result (List ℕ) × ℕ) → Option (Result (List ℕ) × (ℕ × Cache))
  keep speech c none = none
  keep speech c (some (raised e, n)) = some (raised e, (n, c))
  keep speech c (some (ok content, n)) =
      some (ok content, (n, put_cache limits (clock n) (key_of speech) content c))

  abbrev pub or_synthesize :
      ℕ → Speech → ℕ → Option (List ℕ) × Cache → Option (Result (List ℕ) × (ℕ × Cache))
  or_synthesize fuel speech n (none, c) = keep speech c (synthesize client fuel speech n)
  or_synthesize fuel speech n (some [], c) = keep speech c (synthesize client fuel speech n)
  or_synthesize fuel speech n (some (b ∷ content), c) = some (ok (b ∷ content), (n, c))

  unfoldable pub call_tts : ℕ → Speech → ℕ → Cache → Option (Result (List ℕ) × (ℕ × Cache))
  unfolding get_cache put_cache synthesize engine_of
  call_tts fuel speech n c =
      or_synthesize fuel speech n (get_cache limits (clock n) (key_of speech) c)

module _ (client : Client) (limits : Limits) (cache_key : Text → Text → Option Text → Text → Text)
    (clock : ℕ → ℕ) where
  or_synthesize-hit :
      (fuel : ℕ) (speech : Speech) (n : ℕ) (found : Option (List ℕ) × Cache) (b : ℕ)
      (content : List ℕ)
      → found.0 ≡ some (b ∷ content)
      → or_synthesize client limits cache_key clock fuel speech n found
        ≡ some (ok (b ∷ content), (n, found.1))
  or_synthesize-hit fuel speech n (none, c) b content h = cc h
  or_synthesize-hit fuel speech n (some found, c) b content h =
      subst
        (λ (o : Option (List ℕ)).
          or_synthesize client limits cache_key clock fuel speech n (o, c)
          ≡ some (ok (b ∷ content), (n, c)))
        (sym h) refl

  -- A speech that is not in the cache and comes from the worker is kept: the same text, language
  -- and voice is answered from the cache with the same bytes, and no request is sent, until the
  -- time to live has passed. It needs that the audio fits into the cache alone, and that the other
  -- files of the cache are older.
  pub call_tts_again :
      (fuel fuel' : ℕ) (speech : Speech) (n n' later b : ℕ) (content : List ℕ) (c c1 : Cache)
      → get_cache limits (clock n) (key_of client limits cache_key clock speech) c ≡ (none, c1)
      → synthesize client fuel speech n ≡ some (ok (b ∷ content), n')
      → IsDict c1.files
      → 1 ≤ limits.max_files
      → length (b ∷ content) ≤ limits.max_bytes
      → IsNewest (key_of client limits cache_key clock speech) (clock n') c1.files
      → clock later - clock n' ≤ limits.ttl
      → (c2 c3 : Cache) × (call_tts client limits cache_key clock fuel speech n c
          ≡ some (ok (b ∷ content), (n', c2)))
        × (call_tts client limits cache_key clock fuel' speech later c2
            ≡ some (ok (b ∷ content), (later, c3)))
  unfolding call_tts
  call_tts_again fuel fuel' speech n n' later b content c c1 missed answered h some_files small
        newest fresh =
      let name = key_of client limits cache_key clock speech in
      let c2 = put_cache limits (clock n') name (b ∷ content) c1 in
      (
        c2,
        (get_cache limits (clock later) name c2).1,
        rw (missed, answered) refl,
        or_synthesize-hit fuel' speech later (get_cache limits (clock later) name c2) b content (
            get_cache-put_cache limits (clock n') (clock later) name (b ∷ content) c1 h some_files
              small newest
            ∙ rw (le→leb (clock later - clock n') limits.ttl fresh) refl),
      )
