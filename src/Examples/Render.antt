-- ===== src/Examples/Render.antt =====
-- Small inputs for the models of pipeline-worker/mux.py and of the tempos of pipeline-worker/align.py.
use ai_trans_clips_tts.Prelude.{◌≡◌, refl, arith, true, false, none, some, [], ◌∷◌}
use ai_trans_clips_tts.Pipeline.Errors.{ok}
use ai_trans_clips_tts.Pipeline.Tempo.{
  Plan, Media, default_slowdown, default_tempos, slow_factor_for, fit_to_slot,
}
use ai_trans_clips_tts.Pipeline.Tempo.Fits.{IsWithin, fit_to_slot-IsWithin}
use ai_trans_clips_tts.Pipeline.Render.{
  Box, RenderJob, place_on_track, blur_band, render_translated_video,
}
use ai_trans_clips_tts.Pipeline.Render.Graph.{uses, render_translated_video_twice}

-- Twelve seconds of speech over ten seconds of video.
slow_test : slow_factor_for default_slowdown 12000 10000 ≡ record { num = 12000; den = 10000 }
unfolding slow_factor_for
slow_test = refl

-- A clip of three seconds for a slot of two.
abbrev media : Media
media = record {
  src_exists = true;
  tts_duration = 3200;
  trim = ok tt;
  trimmed_duration = 3000;
  natural_wav = ok tt;
  rubberband = λ plan. ok tt;
  atempo = λ plan. ok tt;
}

abbrev faster : Plan
faster = record {
  tempo = record { num = 3000; den = 2000 };
  fits = true;
  target = record { num = 2000; den = 1 };
}

fit_test : fit_to_slot default_tempos media 2000 none none true ≡ ok faster
unfolding fit_to_slot
fit_test = refl

fit_to_slot-IsWithin_example :
    IsWithin default_tempos.min_tempo default_tempos.max_tempo 2000 faster
fit_to_slot-IsWithin_example =
    fit_to_slot-IsWithin default_tempos media 2000 faster (omega arith) fit_test

track_test : place_on_track 0 (0 ∷ 1000 ∷ 5000 ∷ []) (1500 ∷ 700 ∷ 900 ∷ []) ≡ 0 ∷ 1500 ∷ 5000 ∷ []
unfolding place_on_track
track_test = refl

-- A tall box that reaches below the frame.
abbrev tall_box : Box
tall_box = record { x = 20; y = 300; w = 700; h = 200 }

blur_test : blur_band 100 false 640 360 tall_box ≡ record { x = 20; y = 300; w = 620; h = 60 }
unfolding blur_band
blur_test = refl

abbrev blurred : RenderJob
blurred = record {
  flip_horizontal = false;
  blur_box = some tall_box;
  has_ass = true;
  has_watermark = true;
  slow_factor = some (record { num = 3; den = 2 });
  mute_original = false;
  video_size = some (640, 360);
  video_fps = some 25;
  has_audio = true;
  max_blur_height = 100;
}

render_test : (render_translated_video blurred).maps ≡ "vslow" ∷ "aout" ∷ []
unfolding render_translated_video
render_test = refl

abbrev mirrored : RenderJob
mirrored = record blurred { flip_horizontal = true }

render_translated_video_twice_example : uses "vflip" (render_translated_video mirrored) ≡ 2
render_translated_video_twice_example = render_translated_video_twice mirrored tall_box refl refl
