-- ===== src/Service/Options/Lines.antt =====
-- Command lines of `parse` (src/service/options.cpp) as settings, written out word by word.
use nova_visualiser.Prelude.{
  ◌%◌, ◌≡◌, refl, sym, ap, ◌∙◌, Bool, true, false, ◌&&◌, ◌||◌, arith, some, List, [], ◌∷◌, ◌++◌,
  append-nil, append_assoc, Bytes, bytes_eq, codes, ◌==◌, if◌then◌else◌, All,
}
use nova_visualiser.Net.Text.Cuts.{Lacks, cut-append}
use nova_visualiser.Net.Numbers.{atoi_bits, atoll_bits}
use nova_visualiser.Service.Options.{
  Floats, Options, Parsed, fails, succeeds, unknown_option, usage_asked, odd_size, is_positive,
  parse_size, valued, plain, run_branch, finish, after_flag, parse_args,
}

-- What one option asks for. A value is a text, and a size is two.
pub data Setting : Type 0 where
  set_dashboard set_stream_port set_control_port set_srt_port set_srt_latency set_fps set_bitrate
        set_publish set_publish_bitrate set_full_rate_max set_mediamtx_api set_exposure
        set_idle_release set_idle_fps set_self_test set_dump_frame :
      Bytes → Setting
  set_size set_publish_size : Bytes → Bytes → Setting
  set_eight_bit set_house_party set_verbose : Setting

-- The words of an option on the command line
abbrev pub words : Setting → List Bytes
words (set_dashboard v) = codes "--dashboard" ∷ v ∷ []
words (set_stream_port v) = codes "--stream-port" ∷ v ∷ []
words (set_control_port v) = codes "--control-port" ∷ v ∷ []
words (set_srt_port v) = codes "--srt-port" ∷ v ∷ []
words (set_srt_latency v) = codes "--srt-latency" ∷ v ∷ []
words (set_fps v) = codes "--fps" ∷ v ∷ []
words (set_bitrate v) = codes "--bitrate" ∷ v ∷ []
words (set_publish v) = codes "--publish" ∷ v ∷ []
words (set_publish_bitrate v) = codes "--publish-bitrate" ∷ v ∷ []
words (set_full_rate_max v) = codes "--full-rate-max" ∷ v ∷ []
words (set_mediamtx_api v) = codes "--mediamtx-api" ∷ v ∷ []
words (set_exposure v) = codes "--exposure" ∷ v ∷ []
words (set_idle_release v) = codes "--idle-release" ∷ v ∷ []
words (set_idle_fps v) = codes "--idle-fps" ∷ v ∷ []
words (set_self_test v) = codes "--self-test" ∷ v ∷ []
words (set_dump_frame v) = codes "--dump-frame" ∷ v ∷ []
words (set_size width height) = codes "--size" ∷ (width ++ b'x' ∷ height) ∷ []
words (set_publish_size width height) = codes "--publish-size" ∷ (width ++ b'x' ∷ height) ∷ []
words set_eight_bit = codes "--eight-bit" ∷ []
words set_house_party = codes "--house-party" ∷ []
words set_verbose = codes "--verbose" ∷ []

abbrev pub line : List Setting → List Bytes
line [] = []
line (s ∷ ss) = words s ++ line ss

-- The two texts of a size have no `x` in the first, and are positive.
abbrev IsSize : Bytes → Bytes → Type 0
IsSize width height =
    Lacks b'x' width × ((is_positive (atoi_bits width) && is_positive (atoi_bits height)) ≡ true)

abbrev pub IsFine : Setting → Type 0
IsFine (set_size width height) = IsSize width height
IsFine (set_publish_size width height) = IsSize width height
IsFine _ = Unit {0}

parse_size-IsSize :
    (width height : Bytes)
    → IsSize width height
    → parse_size (width ++ b'x' ∷ height) ≡ some (atoi_bits width, atoi_bits height)
unfolding parse_size
parse_size-IsSize width height h = rw (cut-append b'x' width height h.0, h.1) refl

-- The options that stand alone
abbrev pub stands_alone : Bytes → Bool
stands_alone flag =
    bytes_eq flag (codes "--eight-bit")
    || bytes_eq flag (codes "--house-party")
    || bytes_eq flag (codes "--verbose")
    || bytes_eq flag (codes "--help")
    || bytes_eq flag (codes "-h")

module _ {D : Type 0} (floats : Floats D) where
  -- The options behind a setting
  abbrev pub set : Setting → Options D → Options D
  set (set_dashboard v) o = record o { dashboard_url = v }
  set (set_stream_port v) o = record o { stream_port = atoi_bits v }
  set (set_control_port v) o = record o { control_port = atoi_bits v }
  set (set_srt_port v) o = record o { srt_port = atoi_bits v }
  set (set_srt_latency v) o = record o { srt_latency_ms = atoi_bits v }
  set (set_fps v) o = record o { frame_rate = atoi_bits v }
  set (set_bitrate v) o = record o { bit_rate = atoll_bits v }
  set (set_publish v) o = record o { publish_url = v }
  set (set_publish_bitrate v) o = record o { publish_bit_rate = atoll_bits v }
  set (set_full_rate_max v) o = record o { full_rate_max_seconds = atoi_bits v }
  set (set_mediamtx_api v) o = record o { mediamtx_api_url = v }
  set (set_exposure v) o = record o { exposure = floats.to_float (floats.atof v) }
  set (set_idle_release v) o = record o { idle_release_seconds = floats.atof v }
  set (set_idle_fps v) o = record o { idle_frame_rate = atoi_bits v }
  set (set_self_test v) o = record o { self_test_frames = atoi_bits v }
  set (set_dump_frame v) o = record o { dump_frame_path = v }
  set (set_size width height) o = record o { width = atoi_bits width; height = atoi_bits height }
  set (set_publish_size width height) o = record o {
    publish_width = atoi_bits width;
    publish_height = atoi_bits height;
  }
  set set_eight_bit o = record o { ten_bit = false }
  set set_house_party o = record o { house_party_enabled = true }
  set set_verbose o = record o { verbose = true }

  abbrev pub set_all : List Setting → Options D → Options D
  set_all [] o = o
  set_all (s ∷ ss) o = set_all ss (set s o)

  abbrev pub if_even : Options D → Parsed D
  if_even o = if (o.width % 2 == 0) && (o.height % 2 == 0) then succeeds o else fails odd_size

  parse_args-words :
      (s : Setting) (rest : List Bytes) (o : Options D)
      → IsFine s
      → parse_args floats (words s ++ rest) o ≡ parse_args floats rest (set s o)
  unfolding valued plain parse_args after_flag run_branch bytes_eq
  parse_args-words (set_dashboard v) rest o h = refl
  parse_args-words (set_stream_port v) rest o h = refl
  parse_args-words (set_control_port v) rest o h = refl
  parse_args-words (set_srt_port v) rest o h = refl
  parse_args-words (set_srt_latency v) rest o h = refl
  parse_args-words (set_fps v) rest o h = refl
  parse_args-words (set_bitrate v) rest o h = refl
  parse_args-words (set_publish v) rest o h = refl
  parse_args-words (set_publish_bitrate v) rest o h = refl
  parse_args-words (set_full_rate_max v) rest o h = refl
  parse_args-words (set_mediamtx_api v) rest o h = refl
  parse_args-words (set_exposure v) rest o h = refl
  parse_args-words (set_idle_release v) rest o h = refl
  parse_args-words (set_idle_fps v) rest o h = refl
  parse_args-words (set_self_test v) rest o h = refl
  parse_args-words (set_dump_frame v) rest o h = refl
  parse_args-words (set_size width height) rest o h = rw (parse_size-IsSize width height h) refl
  parse_args-words (set_publish_size width height) rest o h =
      rw (parse_size-IsSize width height h) refl
  parse_args-words set_eight_bit [] o h = refl
  parse_args-words set_eight_bit (v ∷ rest) o h = refl
  parse_args-words set_house_party [] o h = refl
  parse_args-words set_house_party (v ∷ rest) o h = refl
  parse_args-words set_verbose [] o h = refl
  parse_args-words set_verbose (v ∷ rest) o h = refl

  parse_args-line_append :
      (ss : List Setting) (rest : List Bytes) (o : Options D)
      → All IsFine ss
      → parse_args floats (line ss ++ rest) o ≡ parse_args floats rest (set_all ss o)
  parse_args-line_append [] rest o h = refl
  parse_args-line_append (s ∷ ss) rest o h =
      rw (append_assoc (words s) (line ss) rest)
        (parse_args-words s (line ss ++ rest) o h.0 ∙ parse_args-line_append ss rest (set s o) h.1)

  parse_args-line_finish : (o : Options D) → parse_args floats [] o ≡ if_even o
  unfolding parse_args finish
  parse_args-line_finish o = refl

  parse_args-help :
      (rest : List Bytes) (o : Options D)
      → parse_args floats (codes "--help" ∷ rest) o ≡ fails usage_asked
  unfolding valued plain parse_args after_flag run_branch bytes_eq
  parse_args-help [] o = refl
  parse_args-help (v ∷ rest) o = refl

  parse_args-unknown :
      (flag : Bytes) (o : Options D)
      → stands_alone flag ≡ false
      → parse_args floats (flag ∷ []) o ≡ fails (unknown_option flag)
  unfolding plain parse_args after_flag run_branch
  parse_args-unknown flag o h = ground arith

  -- For every list of settings, any size among them being two positive numbers, and any options to
  -- start from: the words of the settings give the options with each setting made in its turn, so
  -- that the last of two wins, or an error if the render size is not even in both axes; `--help` behind
  -- them asks for the usage, whatever follows; and one more word that is no option standing alone,
  -- which an option is that misses its value, is called unknown.
  pub parse_args-line :
      (ss : List Setting) (o : Options D) (rest : List Bytes) (flag : Bytes)
      → All IsFine ss
      → stands_alone flag ≡ false
      → (parse_args floats (line ss) o ≡ if_even (set_all ss o))
        × ((parse_args floats (line ss ++ codes "--help" ∷ rest) o ≡ fails usage_asked)
            × (parse_args floats (line ss ++ flag ∷ []) o ≡ fails (unknown_option flag)))
  parse_args-line ss o rest flag h k = (
    ap (λ ws. parse_args floats ws o) (sym (append-nil (line ss)))
        ∙ parse_args-line_append ss [] o h
        ∙ parse_args-line_finish (set_all ss o),
    (
      parse_args-line_append ss (codes "--help" ∷ rest) o h ∙ parse_args-help rest (set_all ss o),
      parse_args-line_append ss (flag ∷ []) o h ∙ parse_args-unknown flag (set_all ss o) k,
    ),
  )
