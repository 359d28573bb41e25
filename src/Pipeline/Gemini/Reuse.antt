-- ===== src/Pipeline/Gemini/Reuse.antt =====
-- What transcribe_and_translate of pipeline-worker/gemini.py finds of its own results in the cache of
-- pipeline-worker/cache.py.
use ai_trans_clips_tts.Prelude.{
  ℕ, ◌-◌, ◌≤◌, ◌≡◌, refl, sym, ap, subst, ◌∙◌, inl, inr, ◌&&◌, Option, none, some, List, ◌∷◌,
  length, arith, String, leb, le→leb, Bool-cases, list_eq, nat_eq,
}
use ai_trans_clips_tts.Prelude.Dict.{IsDict}
use ai_trans_clips_tts.Prelude.Text.{Text, codes}
use ai_trans_clips_tts.Pipeline.Segments.{Segment}
use ai_trans_clips_tts.Pipeline.Chunking.{TranscriptionResult}
use ai_trans_clips_tts.Pipeline.Cache.{Cache, get_cache, put_cache}
use ai_trans_clips_tts.Pipeline.Cache.Hits.{IsNewest, get_cache-put_cache}
use ai_trans_clips_tts.Pipeline.Gemini.{Result, ok, raised, models_of, other_models, key_pool}
use ai_trans_clips_tts.Pipeline.Gemini.Transcribe.{
  Sdk, Settings, call_once, from_cache, finish, attempt_call, transcribe_and_translate, after_cache,
}

module _ (sdk : Sdk) (settings : Settings) (audio : List ℕ)
    (source_language target_language : Text) where
  abbrev key_for : Text → Text
  key_for = settings.cache_key audio source_language target_language

  -- A result has been written to the cache, and counts no tokens.
  abbrev StoredIn : Text → Cache → Result TranscriptionResult × (ℕ × Cache) → Type 0
  StoredIn model c (ok result, (n, c')) =
      (c' ≡ put_cache settings.limits (sdk.clock n) (key_for model) (settings.dump result) c)
      × (result.input_tokens ≡ 0)
      × (result.output_tokens ≡ 0)
  StoredIn model c (raised e, s) = Unit {0}

  finish-StoredIn :
      (model : Text) (r : Result (String × List Segment) × ℕ) (c : Cache)
      → StoredIn model c (finish sdk settings audio source_language target_language model r c)
  unfolding finish
  finish-StoredIn model (raised e, n) c = tt
  finish-StoredIn model (ok (lang, segments), n) c =
      elim (Bool-cases (leb 2 (length (codes lang)) && leb (length (codes lang)) 10)) [
        | inl fine ↦ rw fine (refl, refl, refl)
        | inr bad ↦ rw bad tt
      ]

  attempt_call-StoredIn :
      (model key : Text) (n : ℕ) (c : Cache) (r : Result TranscriptionResult × (ℕ × Cache))
      → attempt_call sdk settings audio source_language target_language model key (n, c) ≡ r
      → StoredIn model c r
  unfolding attempt_call
  attempt_call-StoredIn model key n c r h =
      subst (StoredIn model c) h (finish-StoredIn model (call_once sdk model key n) c)

  from_cache-found :
      (now : ℕ) (model : Text) (models : List Text) (c : Cache) (b : ℕ) (content : List ℕ)
      (result : TranscriptionResult)
      → (get_cache settings.limits now (key_for model) c).0 ≡ some (b ∷ content)
      → settings.load (b ∷ content) ≡ some result
      → (from_cache sdk settings audio source_language target_language now (model ∷ models) c).0
        ≡ some (record result { input_tokens = 0; output_tokens = 0 })
  unfolding from_cache
  from_cache-found now model models c b content result found loaded = rw (found, loaded) refl

same_result :
    (result : TranscriptionResult)
    → result.input_tokens ≡ 0
    → result.output_tokens ≡ 0
    → record result { input_tokens = 0; output_tokens = 0 } ≡ result
same_result result i o = ground (arith, i, o)

after_cache-hit :
    (sdk : Sdk) (settings : Settings) (audio_path source_language target_language : Text)
    (audio : List ℕ) (models keys : List Text) (n : ℕ) (found : Option TranscriptionResult × Cache)
    (result : TranscriptionResult)
    → found.0 ≡ some result
    → let r =
        after_cache sdk settings audio_path source_language target_language audio models keys n
          found in
      (r.0 ≡ ok result) × (r.1.0 ≡ n)
after_cache-hit sdk settings audio_path source_language target_language audio models keys n
      (none, c) result h =
    absurd (ground (arith, h))
after_cache-hit sdk settings audio_path source_language target_language audio models keys n
      (some res, c) result h =
    (cc h, refl)

-- A transcription that the first model has given is not asked for again: for as long as the cache
-- keeps it, the function answers with the same result and sends no request. It needs that the
-- result is read back as it was written, that it fits into the cache alone, and that the other
-- files of the cache are older.
pub transcribe_and_translate_twice :
    (sdk : Sdk) (settings : Settings) (audio_path source_language target_language key : Text)
    (b : ℕ) (audio : List ℕ) (tier : Option Text) (n n' later : ℕ) (c c' : Cache)
    (result : TranscriptionResult) (d : ℕ) (content : List ℕ)
    → attempt_call sdk settings
        (b ∷ audio)
        source_language
        target_language
        settings.default_model
        key
        (n, c)
      ≡ (ok result, (n', c'))
    → settings.dump result ≡ d ∷ content
    → settings.load (d ∷ content) ≡ some result
    → IsDict c.files
    → 1 ≤ settings.limits.max_files
    → length (d ∷ content) ≤ settings.limits.max_bytes
    → IsNewest
        (settings.cache_key (b ∷ audio) source_language target_language settings.default_model)
        (sdk.clock n')
        c.files
    → sdk.clock later - sdk.clock n' ≤ settings.limits.ttl
    → let again =
        transcribe_and_translate sdk settings audio_path source_language target_language
          (some (b ∷ audio))
          tier
          later
          c' in
      (again.0 ≡ ok result) × (again.1.0 ≡ later)
unfolding transcribe_and_translate models_of
transcribe_and_translate_twice sdk settings audio_path source_language target_language key b audio
      tier n n' later c c' result d content called dumped loaded h some_files small newest fresh =
    let (written, no_input, no_output) =
      attempt_call-StoredIn sdk settings (b ∷ audio) source_language target_language
        settings.default_model key n c (ok result, (n', c')) called in
    let name =
      settings.cache_key (b ∷ audio) source_language target_language settings.default_model in
    let found =
      subst
        (λ (x : Cache). (get_cache settings.limits (sdk.clock later) name x).0 ≡ some (d ∷ content))
        (sym
          (written ∙ ap (λ (l : List ℕ). put_cache settings.limits (sdk.clock n') name l c) dumped))
        (get_cache-put_cache settings.limits (sdk.clock n') (sdk.clock later) name (d ∷ content) c h
            some_files small newest
          ∙ rw (le→leb (sdk.clock later - sdk.clock n') settings.limits.ttl fresh) refl) in
    after_cache-hit sdk settings audio_path source_language target_language (b ∷ audio)
      (models_of settings.default_model settings.fallback_models) (key_pool settings.getenv tier)
      later
      (from_cache sdk settings (b ∷ audio) source_language target_language (sdk.clock later)
        (models_of settings.default_model settings.fallback_models) c')
      result
      (from_cache-found sdk settings (b ∷ audio) source_language target_language (sdk.clock later)
          settings.default_model (other_models settings.default_model settings.fallback_models) c' d
          content result found loaded
        ∙ ap (λ (r : TranscriptionResult). some r) (same_result result no_input no_output))
