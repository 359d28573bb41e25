-- ===== src/Pipeline/Render.antt =====
-- pipeline-worker/mux.py: the placement of the clips on the dub track, and the filter graph of
-- render_translated_video. A filter is given by the labels that it reads, what it does, and the label
-- that it makes; its text, and what ffprobe finds of the video, are left out or parameters. The box
-- of the old subtitles has no negative side, as the detection gives it.
pub mod Geometry
pub mod Graph
use ai_trans_clips_tts.Prelude.{
  ℕ, ◌+◌, ◌-◌, ◌*◌, ◌/◌, min, max, String, Bool, true, false, not, ◌||◌, Option, none, some, List,
  [], ◌∷◌, ◌++◌, if◌then◌else◌, ltb, leb,
}
use ai_trans_clips_tts.Pipeline.Tempo.{Fraction}

-- The loop of `build_dub_track` over the slots and the durations of the clips, at the cursor.
unfoldable pub place_on_track : ℕ → List ℕ → List ℕ → List ℕ
place_on_track cursor [] durations = []
place_on_track cursor (slot_start ∷ slots) [] = []
place_on_track cursor (slot_start ∷ slots) (dur ∷ durations) =
    max slot_start cursor ∷ place_on_track (max slot_start cursor + dur) slots durations

pub record Box : Type 0 where
  pub x : ℕ
  pub y : ℕ
  pub w : ℕ
  pub h : ℕ

-- SUBTITLE_MAX_BLUR_HEIGHT
abbrev pub default_max_blur_height : ℕ
default_max_blur_height = 100

-- The box within a frame of `vw` by `vh`
unfoldable pub clamp_box : ℕ → ℕ → Box → Box
clamp_box vw vh b =
    let x = min b.x (vw - 2) in
    let y = min b.y (vh - 2) in
    record { x = x; y = y; w = max 2 (min b.w (vw - x)); h = max 2 (min b.h (vh - y)) }

abbrev pub mirror : Bool → ℕ → Box → Box
mirror flip vw b = if flip then record b { x = vw - b.x - b.w } else b

-- A box that is too small gives way to a band at the bottom.
abbrev pub or_band : ℕ → ℕ → Box → Box
or_band vw vh b =
    let h = max 8 (vh / 5) in
    if ltb b.h 8 || ltb b.w 8
    then record { x = 0; y = vh - h - max 2 (vh / 20); w = vw; h = h }
    else b

-- A box that is too tall is cut down to its bottom.
abbrev pub cap_height : ℕ → Box → Box
cap_height max_blur_h b =
    if ltb max_blur_h b.h then record b { y = b.y + (b.h - max_blur_h); h = max_blur_h } else b

unfoldable pub blur_band : ℕ → Bool → ℕ → ℕ → Box → Box
unfolding clamp_box
blur_band max_blur_h flip vw vh b =
    cap_height max_blur_h (or_band vw vh (mirror flip vw (clamp_box vw vh b)))

-- The radius of the blur, and that of its colours
unfoldable pub radius_of : Box → ℕ
radius_of b = max 1 (min 10 (min b.w b.h / 2 - 1))

unfoldable pub chroma_of : ℕ → ℕ
chroma_of radius = if leb 2 radius then max 1 (min 5 (radius / 2)) else 1

-- What a filter does.
pub data Filter : Type 0 where
  hflip : Filter
  crop_and_blur : Box → ℕ → ℕ → Filter
  overlay : ℕ → ℕ → Filter
  burn_ass : Filter
  drawtext : ℕ → Filter
  setpts : Fraction → Option ℕ → Filter
  loudnorm amix : Filter
  volume : Option Fraction → Filter

pub record Node : Type 0 where
  pub inputs : List String
  pub filter : Filter
  pub output : String

-- The arguments, with what is found of the video: its size, its frame rate, its sound. The slow factor
-- is None when it is not above 1.0001.
pub record RenderJob : Type 0 where
  pub flip_horizontal : Bool
  pub blur_box : Option Box
  pub has_ass : Bool
  pub has_watermark : Bool
  pub slow_factor : Option Fraction
  pub mute_original : Bool
  pub video_size : Option (ℕ × ℕ)
  pub video_fps : Option ℕ
  pub has_audio : Bool
  pub max_blur_height : ℕ

-- `parts` and `vlabel`
abbrev pub Graph : Type 0
Graph = List Node × String

abbrev video_filter : Graph → Filter → String → Graph
video_filter (parts, vlabel) filter output =
    (parts ++ record { inputs = vlabel ∷ []; filter = filter; output = output } ∷ [], output)

abbrev add_flip : Bool → Graph → Graph
add_flip true graph = video_filter graph hflip "vflip"
add_flip false graph = graph

abbrev band_in : RenderJob → Box → Option (ℕ × ℕ) → Box
band_in job b none = b
band_in job b (some (vw, vh)) = blur_band job.max_blur_height job.flip_horizontal vw vh b

-- The crop and the overlay both read the label of the picture.
abbrev blur_nodes : String → Box → List Node
blur_nodes vlabel b =
    record {
      inputs = vlabel ∷ [];
      filter = crop_and_blur b (radius_of b) (chroma_of (radius_of b));
      output = "bl";
    }
    ∷ record { inputs = vlabel ∷ "bl" ∷ []; filter = overlay b.x b.y; output = "vblur" }
    ∷ []

abbrev add_blur : RenderJob → Option Box → Graph → Graph
add_blur job none graph = graph
add_blur job (some b) (parts, vlabel) =
    (parts ++ blur_nodes vlabel (band_in job b job.video_size), "vblur")

abbrev add_ass : Bool → Graph → Graph
add_ass true graph = video_filter graph burn_ass "vass"
add_ass false graph = graph

abbrev frame_height : Option (ℕ × ℕ) → ℕ
frame_height none = 1080
frame_height (some (vw, vh)) = vh

abbrev add_watermark : RenderJob → Bool → Graph → Graph
add_watermark job true graph =
    video_filter graph (drawtext (max 22 (min 48 (frame_height job.video_size * 4 / 100)))) "wmv"
add_watermark job false graph = graph

abbrev add_slow : RenderJob → Option Fraction → Graph → Graph
add_slow job none graph = graph
add_slow job (some factor) graph = video_filter graph (setpts factor job.video_fps) "vslow"

unfoldable pub video_graph : RenderJob → Graph
unfolding blur_band radius_of chroma_of
video_graph job = add_slow job job.slow_factor (
    add_watermark job job.has_watermark
      (add_ass job.has_ass (add_blur job job.blur_box (add_flip job.flip_horizontal ([], "0:v")))))

unfoldable pub audio_nodes : RenderJob → List Node
audio_nodes job =
    if job.mute_original || not job.has_audio
    then record { inputs = "1:a" ∷ []; filter = loudnorm; output = "aout" } ∷ []
    else record { inputs = "0:a" ∷ []; filter = volume job.slow_factor; output = "orig" }
      ∷ record { inputs = "orig" ∷ "1:a" ∷ []; filter = amix; output = "mixed" }
      ∷ record { inputs = "mixed" ∷ []; filter = loudnorm; output = "aout" }
      ∷ []

-- `if not parts`: the picture is copied when no filter changes it.
abbrev is_copied : List Node → Bool
is_copied [] = true
is_copied (node ∷ parts) = false

-- The command: the filters, the two labels that are mapped, and whether the video is copied.
pub record Command : Type 0 where
  pub nodes : List Node
  pub maps : List String
  pub copied : Bool

unfoldable pub render_translated_video : RenderJob → Command
unfolding video_graph audio_nodes
render_translated_video job =
    let (parts, vlabel) = video_graph job in
    record {
      nodes = parts ++ audio_nodes job;
      maps = vlabel ∷ "aout" ∷ [];
      copied = is_copied parts;
    }
