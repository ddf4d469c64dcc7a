-- ===== src/Service/Options.antt =====
-- src/service/options.{h,cpp}: the command line. An int and an int64_t are their bit patterns; a
-- double and a float are a type `D`, with the conversions in `Floats`. A message of an error is
-- what it says, and its text is left out.
pub mod Sizes
pub mod Lines
mod Tests
use nova_visualiser.Prelude.{
  ℕ, ◌+◌, ◌-◌, ◌%◌, ◌^◌, min, Bool, true, false, ◌&&◌, Option, none, some, List, [], ◌∷◌, Bytes,
  codes, bytes_eq, if◌then◌else◌, ltb, ◌==◌,
}
use nova_visualiser.Net.Text.{cut}
use nova_visualiser.Net.Numbers.{atoi_bits, atoll_bits}

-- What the code takes from the C library and the compiler.
pub record Floats (D : Type 0) : Type 0 where
  pub atof : Bytes → D
  pub to_float : D → D
  pub of_nat : ℕ → D

pub record Options (D : Type 0) : Type 0 where
  pub dashboard_url : Bytes
  pub stream_port : ℕ
  pub control_port : ℕ
  pub srt_port : ℕ
  pub srt_latency_ms : ℕ
  pub width : ℕ
  pub height : ℕ
  pub frame_rate : ℕ
  pub bit_rate : ℕ
  pub ten_bit : Bool
  pub publish_url : Bytes
  pub mediamtx_api_url : Bytes
  pub publish_width : ℕ
  pub publish_height : ℕ
  pub publish_bit_rate : ℕ
  pub full_rate_max_seconds : ℕ
  pub config_poll_seconds : D
  pub exposure : D
  pub idle_release_seconds : D
  pub idle_frame_rate : ℕ
  pub house_party_enabled : Bool
  pub verbose : Bool
  pub dump_frame_path : Bytes
  pub self_test_frames : ℕ

pub data Message : Type 0 where
  size_expected publish_size_expected usage_asked odd_size : Message
  unknown_option : Bytes → Message

-- What a branch of the chain of flags does: none of its flags, an early return, or new options.
pub data Assigned (D : Type 0) : Type 0 where
  no_flag : Assigned D
  rejected : Message → Assigned D
  assigned : Options D → Assigned D

pub data Parsed (D : Type 0) : Type 0 where
  fails : Message → Parsed D
  succeeds : Options D → Parsed D

-- `value > 0` of an int
abbrev pub is_positive : ℕ → Bool
is_positive n = ltb 0 n && ltb n (2 ^ 31)

sizes : ℕ → ℕ → Option (ℕ × ℕ)
sizes width height = if is_positive width && is_positive height then some (width, height) else none

size_parts : Option (Bytes × Bytes) → Option (ℕ × ℕ)
unfolding sizes
size_parts none = none
size_parts (some (width, height)) = sizes (atoi_bits width) (atoi_bits height)

-- `parseSize`; what it has assigned before it fails is of no use, since the caller fails too.
pub parse_size : Bytes → Option (ℕ × ℕ)
unfolding size_parts
parse_size text = size_parts (cut b'x' text)

module _ {D : Type 0} where
  render_size : Option (ℕ × ℕ) → Options D → Assigned D
  render_size none out = rejected size_expected
  render_size (some (width, height)) out = assigned (record out { width = width; height = height })

  publish_size : Option (ℕ × ℕ) → Options D → Assigned D
  publish_size none out = rejected publish_size_expected
  publish_size (some (width, height)) out =
      assigned (record out { publish_width = width; publish_height = height })

-- A branch of the chain: its flag, and its body.
pub record Branch (D : Type 0) : Type 0 where
  pub flag : Bytes
  pub run : Bytes → Options D → Assigned D

abbrev branch : {D : Type 0} → Bytes → (Bytes → Options D → Assigned D) → Branch D
branch flag run = record { flag = flag; run = run }

module _ {D : Type 0} (floats : Floats D) where
  -- The branches that take a value, in their order.
  unfoldable pub valued : List (Branch D)
  unfolding render_size publish_size parse_size
  valued =
      branch (codes "--dashboard") (λ v o. assigned (record o { dashboard_url = v }))
      ∷ branch (codes "--stream-port") (λ v o. assigned (record o { stream_port = atoi_bits v }))
      ∷ branch (codes "--control-port") (λ v o. assigned (record o { control_port = atoi_bits v }))
      ∷ branch (codes "--srt-port") (λ v o. assigned (record o { srt_port = atoi_bits v }))
      ∷ branch (codes "--srt-latency") (λ v o. assigned (record o { srt_latency_ms = atoi_bits v }))
      ∷ branch (codes "--size") (λ v o. render_size (parse_size v) o)
      ∷ branch (codes "--fps") (λ v o. assigned (record o { frame_rate = atoi_bits v }))
      ∷ branch (codes "--bitrate") (λ v o. assigned (record o { bit_rate = atoll_bits v }))
      ∷ branch (codes "--publish") (λ v o. assigned (record o { publish_url = v }))
      ∷ branch (codes "--publish-size") (λ v o. publish_size (parse_size v) o)
      ∷ branch (codes "--publish-bitrate")
          (λ v o. assigned (record o { publish_bit_rate = atoll_bits v }))
      ∷ branch (codes "--full-rate-max")
          (λ v o. assigned (record o { full_rate_max_seconds = atoi_bits v }))
      ∷ branch (codes "--mediamtx-api") (λ v o. assigned (record o { mediamtx_api_url = v }))
      ∷ branch (codes "--exposure")
          (λ v o. assigned (record o { exposure = floats.to_float (floats.atof v) }))
      ∷ branch (codes "--idle-release")
          (λ v o. assigned (record o { idle_release_seconds = floats.atof v }))
      ∷ branch (codes "--idle-fps") (λ v o. assigned (record o { idle_frame_rate = atoi_bits v }))
      ∷ branch (codes "--self-test") (λ v o. assigned (record o { self_test_frames = atoi_bits v }))
      ∷ branch (codes "--dump-frame") (λ v o. assigned (record o { dump_frame_path = v }))
      ∷ []

module _ {D : Type 0} where
  -- The branches that take none; `-h` is `--help`.
  pub plain : List (Branch D)
  plain =
      branch (codes "--eight-bit") (λ v o. assigned (record o { ten_bit = false }))
      ∷ branch (codes "--house-party") (λ v o. assigned (record o { house_party_enabled = true }))
      ∷ branch (codes "--verbose") (λ v o. assigned (record o { verbose = true }))
      ∷ branch (codes "--help") (λ v o. rejected usage_asked)
      ∷ branch (codes "-h") (λ v o. rejected usage_asked)
      ∷ []

  -- `if (flag == ...) ... else if ...`
  pub run_branch : List (Branch D) → Bytes → Bytes → Options D → Assigned D
  run_branch [] flag value out = no_flag
  run_branch (b ∷ bs) flag value out =
      let later = run_branch bs flag value out in
      if bytes_eq flag b.flag then b.run value out else later

  -- Behind the loop: 4:2:0 chroma needs even sizes.
  pub finish : Options D → Parsed D
  finish out =
      if (out.width % 2 == 0) && (out.height % 2 == 0) then succeeds out else fails odd_size

  -- The loop goes on with the new options, ends, or tries the other branches.
  pub after_flag : Assigned D → (Options D → Parsed D) → Parsed D → Parsed D
  after_flag no_flag next other = other
  after_flag (rejected message) next other = fails message
  after_flag (assigned out) next other = next out

module _ {D : Type 0} (floats : Floats D) where
  -- The loop over the arguments. A branch that takes a value is passed over at the last argument.
  pub parse_args : List Bytes → Options D → Parsed D
  unfolding finish after_flag run_branch plain valued
  parse_args [] out = finish out
  parse_args (flag ∷ []) out =
      after_flag (run_branch plain flag [] out) finish (fails (unknown_option flag))
  parse_args (flag ∷ value ∷ rest) out =
      after_flag (run_branch (valued floats) flag value out) (λ o. parse_args rest o)
        (after_flag (run_branch plain flag [] out) (λ o. parse_args (value ∷ rest) o)
          (fails (unknown_option flag)))

  pub defaults : Options D
  defaults = record {
    dashboard_url = codes "http://127.0.0.1:3001";
    stream_port = 8770;
    control_port = 8771;
    srt_port = 8772;
    srt_latency_ms = 60;
    width = 3840;
    height = 2160;
    frame_rate = 60;
    bit_rate = 30000000;
    ten_bit = true;
    publish_url = codes "rtsp://127.0.0.1:8554/visualiser";
    mediamtx_api_url = codes "http://127.0.0.1:9997";
    publish_width = 1920;
    publish_height = 1080;
    publish_bit_rate = 8000000;
    full_rate_max_seconds = 300;
    config_poll_seconds = floats.of_nat 15;
    exposure = floats.to_float (floats.of_nat 1);
    idle_release_seconds = floats.of_nat 30;
    idle_frame_rate = 15;
    house_party_enabled = false;
    verbose = false;
    dump_frame_path = [];
    self_test_frames = 0;
  }
