-- ===== src/Net/Config/Polls/Kept.antt =====
-- What the polls beside the configuration leave alone (src/net/config_client.cpp).
use nova_visualiser.Prelude.{
  [], ◌≡◌, refl, Bool, true, false, Option, none, some, Bytes, Bool-cases, inl, inr, not, ◌||◌,
  ◌&&◌, bytes_eq, ◌==◌, codes, if◌then◌else◌,
}
use nova_visualiser.Core.Double.{Double}
use nova_visualiser.Core.Json.{
  Value, null, boolean, number, string, array, object, NumberText, find,
}
use nova_visualiser.Core.Signal.{TrackIdentity, identity_key}
use nova_visualiser.Net.Config.{HttpResponse, ok, NowPlaying, ConfigClient, parse_json}
use nova_visualiser.Net.Config.Rotation.{empty_text}
use nova_visualiser.Net.Config.Polls.{
  with_selection, refresh_theme_state, absent, with_theme, theme_in, refresh_theme, with_analysis,
  analysis_in, resolve_body, resolve_track, track_changed, playing_in, now_playing_from,
  refresh_now_playing,
}

module _ {D : Type 0} ⦃d : Double D⦄ where
  -- The configuration that the client holds: the module, its settings and groups, the rotation's
  -- entries, palettes and images, the cached images, the tag, the revision and the error
  abbrev pub Kept : ConfigClient D → ConfigClient D → Type 0
  Kept client next =
      (next.snapshot.active_module ≡ client.snapshot.active_module)
      × ((next.snapshot.settings ≡ client.snapshot.settings)
          × ((next.snapshot.settings_groups ≡ client.snapshot.settings_groups)
              × ((next.snapshot.rotation.entries ≡ client.snapshot.rotation.entries)
                  × ((next.snapshot.rotation.palettes ≡ client.snapshot.rotation.palettes)
                      × ((next.snapshot.rotation.images ≡ client.snapshot.rotation.images)
                          × ((next.image_cache ≡ client.image_cache)
                              × ((next.config_etag ≡ client.config_etag)
                                  × ((next.revision ≡ client.revision)
                                      × (next.last_error ≡ client.last_error)))))))))

  kept : (client : ConfigClient D) → Kept client client
  kept client = (refl, (refl, (refl, (refl, (refl, (refl, (refl, (refl, (refl, refl)))))))))

  with_selection-Kept :
      (value : Option (Value D)) (client : ConfigClient D)
      → Kept client (with_selection value client)
  unfolding with_selection
  with_selection-Kept none client = kept client
  with_selection-Kept (some value) client = kept client

  with_theme-Kept :
      (response : HttpResponse) (theme : Option (Value D)) (client : ConfigClient D)
      → Kept client (with_theme response theme client)
  unfolding with_theme
  with_theme-Kept response none client = kept client
  with_theme-Kept response (some null) client = kept client
  with_theme-Kept response (some (boolean b)) client = kept client
  with_theme-Kept response (some (number n)) client = kept client
  with_theme-Kept response (some (string s)) client = kept client
  with_theme-Kept response (some (array items)) client = kept client
  with_theme-Kept response (some (object fields)) client =
      elim (Bool-cases (
        absent (find (codes "accent") (object fields))
        && absent (find (codes "background") (object fields)))) [
          | inl e ↦ rw e (kept client)
          | inr e ↦ rw e (kept client)
        ]

  theme_in-Kept :
      (response : HttpResponse) (envelope : Option (Value D)) (client : ConfigClient D)
      → Kept client (theme_in response envelope client)
  unfolding theme_in
  theme_in-Kept response none client = kept client
  theme_in-Kept response (some envelope) client =
      with_theme-Kept response (find (codes "theme") envelope) client

  with_analysis-Kept :
      (identity : TrackIdentity D) (node : Option (Value D)) (client : ConfigClient D)
      → Kept client (with_analysis identity node client)
  unfolding with_analysis
  with_analysis-Kept identity none client = kept client
  with_analysis-Kept identity (some node) client = kept client

  analysis_in-Kept :
      (identity : TrackIdentity D) (value : Option (Value D)) (client : ConfigClient D)
      → Kept client (analysis_in identity value client)
  unfolding analysis_in
  analysis_in-Kept identity none client = kept client
  analysis_in-Kept identity (some value) client =
      with_analysis-Kept identity (find (codes "analysis") value) client

  resolve_track-Kept :
      (http_post : Bytes → HttpResponse) (numbers : NumberText D) (identity : TrackIdentity D)
      (client : ConfigClient D)
      → Kept client (resolve_track http_post numbers identity client)
  unfolding resolve_track
  resolve_track-Kept http_post numbers identity client =
      elim (Bool-cases (not (ok (http_post (resolve_body identity))))) [
        | inl e ↦ rw e (kept client)
        | inr e ↦ rw e (
            analysis_in-Kept identity (parse_json numbers (http_post (resolve_body identity)).body)
              client)
      ]

  track_changed-Kept :
      (http_post : Bytes → HttpResponse) (numbers : NumberText D) (next : NowPlaying D)
      (client : ConfigClient D)
      → Kept client (track_changed http_post numbers next client)
  unfolding track_changed
  track_changed-Kept http_post numbers next client =
      let track_key = if next.valid then identity_key next.identity else [] in
      elim (Bool-cases (bytes_eq track_key client.resolved_track_key || empty_text track_key)) [
        | inl e ↦ rw e (kept client)
        | inr e ↦ rw e (
            resolve_track-Kept http_post numbers next.identity
              (record client { now_playing = next }))
      ]

  playing_in-Kept :
      (http_post : Bytes → HttpResponse) (numbers : NumberText D) (requested_at received_at : D)
      (value : Option (Value D)) (client : ConfigClient D)
      → Kept client (playing_in http_post numbers requested_at received_at value client)
  unfolding playing_in
  playing_in-Kept http_post numbers requested_at received_at none client = kept client
  playing_in-Kept http_post numbers requested_at received_at (some value) client =
      track_changed-Kept http_post numbers (now_playing_from value requested_at received_at) client

  -- Whatever the dashboard answers, the polls of the theme state, of the theme and of what is playing
  -- leave alone the module that the client holds, its settings and settings groups, the entries, palettes
  -- and images of the rotation, the cached images, the tag, the revision and the error.
  pub polls-Kept :
      (http_post : Bytes → HttpResponse) (numbers : NumberText D) (response : HttpResponse)
      (requested_at received_at : D) (client : ConfigClient D)
      → Kept client (refresh_theme_state numbers response client)
        × (Kept client (refresh_theme numbers response client)
            × Kept client
                (refresh_now_playing http_post numbers response requested_at received_at client))
  unfolding refresh_theme_state refresh_theme refresh_now_playing
  polls-Kept http_post numbers response requested_at received_at client = (
    unless_failed (not (ok response)) _
        (with_selection-Kept (parse_json numbers response.body) client),
    (
      unless_failed (response.status == 304 || not (ok response)) _
          (theme_in-Kept response (parse_json numbers response.body) client),
      unless_failed (not (ok response)) _ (
          playing_in-Kept http_post numbers requested_at received_at
            (parse_json numbers response.body) client),
    ),
  )
    where
      unless_failed :
          (b : Bool) (next : ConfigClient D)
          → Kept client next
          → Kept client (if b then client else next)
      unless_failed true next h = kept client
      unless_failed false next h = h
