-- ===== src/MediaInternals.antt =====
-- media_internals.h and media_internals.cc: the logs of the audio components. Ids are numbers, a bit
-- mask is the number of its bits, and doubles are a type. What `base` and `media` give is a
-- parameter: how a number is printed, the name of a channel layout, the values of the effects and
-- the number of audio components. A failed DCHECK, an index out of range or an int that overflows is
-- `none`.
pub mod Keys
mod Tests
use Prim.Native.Nat.{bit_and}
use Prim.Native.String.{String, ◌++◌}
use text.Mathlib.Text.{◌==◌ as str_eq}
use chromium_media_lib.Prelude.{
  ℕ, ◌+◌, ◌-◌, ◌^◌, Bool, true, false, Option, some, none, List, [], ◌∷◌, ◌==◌, ltb, if◌then◌else◌,
  ◌>>=◌,
}

pub data Value (Real : Type 0) : Type 0 where
  string : String → Value Real
  integer : ℕ → Value Real
  double : Real → Value Real

-- AudioLogUpdateType.
pub data UpdateType : Type 0 where
  create update_if_exists update_and_delete : UpdateType

-- The formats that FormatToString tells apart, and any other.
pub data Format : Type 0 where
  audio_pcm_linear audio_pcm_low_latency audio_bitstream_ac3 : Format
  audio_bitstream_eac3 audio_fake other_format : Format

pub record AudioParameters : Type 0 where
  pub format : Format
  pub frames_per_buffer : ℕ
  pub sample_rate : ℕ
  pub channels : ℕ
  pub channel_layout : ℕ
  pub effects : ℕ

abbrev pub audio_log_status_key : String
audio_log_status_key = "status"

abbrev pub audio_log_update_function : String
audio_log_update_function = "media.updateAudioComponent"

-- A call of UpdateAudioLog.
pub record Update (Real : Type 0) : Type 0 where
  pub update_type : UpdateType
  pub cache_key : String
  pub function : String
  pub value : List (String × Value Real)

-- The calls of UpdateAudioLog are kept, the last one first: its body does nothing with them.
pub record MediaInternals (Real : Type 0) : Type 0 where
  pub owner_ids : ℕ → ℕ
  pub updates : List (Update Real)

-- AudioLogImpl.
pub record AudioLog : Type 0 where
  pub owner_id : ℕ
  pub component : ℕ

unfoldable pub format_to_string : Format → Option String
format_to_string audio_pcm_linear = some "pcm_linear"
format_to_string audio_pcm_low_latency = some "pcm_low_latency"
format_to_string audio_bitstream_ac3 = some "ac3"
format_to_string audio_bitstream_eac3 = some "eac3"
format_to_string audio_fake = some "fake"
format_to_string other_format = none

-- `if (!ret.empty()) ret += " | "; ret += name;`
unfoldable pub append_name : String → String → String
append_name ret name = if str_eq ret "" then ret ++ name else (ret ++ " | ") ++ name

-- The loop of EffectsToString over the flags with their names: the text, and the effects left.
unfoldable pub effects_loop : List (ℕ × String) → ℕ → String → String × ℕ
unfolding append_name
effects_loop [] effects ret = (ret, effects)
effects_loop ((flag, name) ∷ flags) effects ret =
    let set = ltb 0 (bit_and effects flag) in
    effects_loop flags (if set then effects - bit_and effects flag else effects)
      (if set then append_name ret name else ret)

-- `names` are the flags in the order of EffectsToString, with their names.
unfoldable pub effects_to_string : (ℕ → String) → List (ℕ × String) → ℕ → String
unfolding append_name effects_loop
effects_to_string int_to_string names effects =
    if effects == 0
    then "NO_EFFECTS"
    else (let r = effects_loop names effects "" in
        if ltb 0 r.1 then append_name r.0 (int_to_string r.1) else r.0)

-- The flags of EffectsToString, whose values are the media library's.
abbrev pub effect_names : ℕ → ℕ → ℕ → ℕ → List (ℕ × String)
effect_names echo_canceller ducking keyboard_mic hotword =
    (echo_canceller, "ECHO_CANCELLER")
    ∷ (ducking, "DUCKING")
    ∷ (keyboard_mic, "KEYBOARD_MIC")
    ∷ (hotword, "HOTWORD")
    ∷ []

-- StringPrintf("%d:%d:%d", ...), a number being printed by `int_to_string`.
unfoldable pub format_cache_key : (ℕ → String) → AudioLog → ℕ → String
format_cache_key int_to_string log component_id =
    int_to_string log.owner_id
    ++ String.◌∷◌ ":" (int_to_string log.component ++ String.◌∷◌ ":" (int_to_string component_id))

module _ {Real : Type 0} where
  unfoldable pub new_internals : MediaInternals Real
  new_internals = record { owner_ids = λ _. 0; updates = [] }

  -- CreateAudioLog: the log has the next owner id of its component.
  unfoldable pub create_audio_log :
      ℕ → ℕ → MediaInternals Real → Option (AudioLog × MediaInternals Real)
  create_audio_log component_max component m =
      if ltb component component_max
      then (let next = m.owner_ids component + 1 in
          if ltb next (2 ^ 31)
          then some (
            record { owner_id = m.owner_ids component; component = component },
            record m { owner_ids = λ c. if c == component then next else m.owner_ids c },
          )
          else none)
      else none

  -- DictionaryValue's SetString, SetInteger and SetDouble, at keys without dots.
  unfoldable pub set_value :
      String → Value Real → List (String × Value Real) → List (String × Value Real)
  set_value key v [] = (key, v) ∷ []
  set_value key v ((k, w) ∷ dict) =
      if str_eq k key then (k, v) ∷ dict else (k, w) ∷ set_value key v dict

  unfoldable pub store_component_metadata :
      AudioLog → ℕ → List (String × Value Real) → List (String × Value Real)
  unfolding set_value
  store_component_metadata log component_id dict =
      set_value "component_type" (integer log.component) (
        set_value "component_id" (integer component_id)
          (set_value "owner_id" (integer log.owner_id) dict))

  unfoldable pub update_audio_log :
      UpdateType
      → String
      → String
      → List (String × Value Real)
      → MediaInternals Real
      → MediaInternals Real
  update_audio_log update_type cache_key function value m = record m {
    updates =
        record {
          update_type = update_type;
          cache_key = cache_key;
          function = function;
          value = value;
        }
        ∷ m.updates;
  }

  module _ (int_to_string : ℕ → String) (log : AudioLog) (component_id : ℕ) where
    -- One entry besides the metadata.
    unfoldable pub send_update :
        UpdateType → String → Value Real → MediaInternals Real → MediaInternals Real
    unfolding format_cache_key set_value store_component_metadata update_audio_log
    send_update update_type key value m =
        update_audio_log update_type (format_cache_key int_to_string log component_id)
          audio_log_update_function
          (set_value key value (store_component_metadata log component_id [])) m

    unfoldable pub send_single_string_update :
        String → String → MediaInternals Real → MediaInternals Real
    unfolding send_update
    send_single_string_update key value m = send_update update_if_exists key (string value) m

    unfoldable pub on_started : MediaInternals Real → MediaInternals Real
    unfolding send_single_string_update
    on_started m = send_single_string_update audio_log_status_key "started" m

    unfoldable pub on_stopped : MediaInternals Real → MediaInternals Real
    unfolding send_single_string_update
    on_stopped m = send_single_string_update audio_log_status_key "stopped" m

    unfoldable pub on_closed : MediaInternals Real → MediaInternals Real
    unfolding send_update
    on_closed m = send_update update_and_delete audio_log_status_key (string "closed") m

    unfoldable pub on_log_error : MediaInternals Real → MediaInternals Real
    unfolding send_single_string_update
    on_log_error m = send_single_string_update "error_occurred" "true" m

    unfoldable pub on_set_volume : Real → MediaInternals Real → MediaInternals Real
    unfolding send_update
    on_set_volume volume m = send_update update_if_exists "volume" (double volume) m

    unfoldable pub on_switch_output_device : String → MediaInternals Real → MediaInternals Real
    unfolding send_update
    on_switch_output_device device_id m =
        send_update update_if_exists "device_id" (string device_id) m

    -- A TODO in the source.
    unfoldable pub on_log_message : String → MediaInternals Real → MediaInternals Real
    on_log_message message m = m

    unfoldable pub on_created :
        (ℕ → String)
        → List (ℕ × String)
        → AudioParameters
        → String
        → MediaInternals Real
        → Option (MediaInternals Real)
    unfolding format_cache_key set_value store_component_metadata update_audio_log format_to_string
        effects_to_string
    on_created channel_layout_to_string names params device_id m =
        format_to_string params.format >>= λ device_type. some (
          let metadata = store_component_metadata log component_id [] in
          let status = set_value audio_log_status_key (string "created") metadata in
          let device = set_value "device_id" (string device_id) status in
          let kind = set_value "device_type" (string device_type) device in
          let frames = set_value "frames_per_buffer" (integer params.frames_per_buffer) kind in
          let rate = set_value "sample_rate" (integer params.sample_rate) frames in
          let channels = set_value "channels" (integer params.channels) rate in
          let layout =
            set_value "channel_layout" (string (channel_layout_to_string params.channel_layout))
              channels in
          let effects =
            set_value "effects" (string (effects_to_string int_to_string names params.effects))
              layout in
          update_audio_log create (format_cache_key int_to_string log component_id)
            audio_log_update_function effects m)
