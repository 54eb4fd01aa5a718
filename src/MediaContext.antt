-- ===== src/MediaContext.antt =====
-- media_context.h and media_context.cc: what all players share. The mixer manager is made when it is
-- first asked for, by the argument `made`; the host and the filter, its client, are made at once. A
-- failed DCHECK or CHECK is `none`.
use chromium_media_lib.Prelude.{ℕ, max, Bool, true, ◌&&◌, Option, some, none, if◌then◌else◌, ◌>>=◌}
use chromium_media_lib.RendererHost.{AudioRendererHost, new_host}
use chromium_media_lib.RendererHost.Filter.{new_filter}

pub record MediaContext (Manager Real : Type 0) : Type 0 where
  pub audio_renderer_mixer_manager : Option Manager
  pub audio_message_filter : ℕ
  pub audio_renderer_host : AudioRendererHost Real

module _ {Manager Real : Type 0} where
  -- The context with its filter, and `g_filter` afterwards. The media library makes the audio manager
  -- and the audio system, or not.
  unfoldable pub new_context :
      Bool → Bool → ℕ → Option ℕ → Option (MediaContext Manager Real × Option ℕ)
  unfolding new_host new_filter
  new_context has_manager has_system filter g_filter = new_filter filter g_filter >>= λ g.
      if has_manager && has_system
      then some (
        record {
          audio_renderer_mixer_manager = none;
          audio_message_filter = filter;
          audio_renderer_host = new_host true;
        },
        g,
      )
      else none

  unfoldable pub get_audio_renderer_mixer_manager :
      Manager → MediaContext Manager Real → Manager × MediaContext Manager Real
  get_audio_renderer_mixer_manager made c = elim c.audio_renderer_mixer_manager [
    | some m ↦ (m, c)
    | none ↦ (made, record c { audio_renderer_mixer_manager = some made })
  ]

-- The most threads of the four pools of the task scheduler, which reclaims a thread after a time in
-- seconds.
pub record TaskSchedulerParams : Type 0 where
  pub background : ℕ
  pub background_blocking : ℕ
  pub foreground : ℕ
  pub foreground_blocking : ℕ
  pub suggested_reclaim_time : ℕ

unfoldable pub get_default_task_scheduler_init_params : ℕ → TaskSchedulerParams
get_default_task_scheduler_init_params number_of_processors = record {
  background = 1;
  background_blocking = 1;
  foreground = max 2 number_of_processors;
  foreground_blocking = 1;
  suggested_reclaim_time = 30;
}
