-- ===== src/Config/Reload/Inotify.antt =====
-- AppOptR/src/config.rs: `init_inotify`, `disable_inotify`, `inotify_rewatch`, `inotify_handle` and one round of
-- `config_loader`.
use Prim.Native.Nat.{bit_and}
use app_opt_r_plus.Prelude.{
  ℕ, ◌*◌, ◌-◌, ◌%◌, ◌^◌, Bool, true, false, not, ◌||◌, Option, none, some, List, [], ◌∷◌, ltb, ◌==◌,
  if◌then◌else◌, max,
}
use app_opt_r_plus.Prelude.Int.{ℤ, pos, negsuc}
use app_opt_r_plus.Prelude.Text.{Text, contains}
use app_opt_r_plus.Daemon.{Globals, DaemonSys}
use app_opt_r_plus.Config.Reload.{Loader, config_reload}

abbrev pub in_close_write : ℕ
in_close_write = 0x8

abbrev pub in_delete_self : ℕ
in_delete_self = 0x400

abbrev pub in_move_self : ℕ
in_move_self = 0x800

abbrev pub eintr : ℕ
eintr = 4

-- `EAGAIN`, which EWOULDBLOCK is too.
abbrev pub eagain : ℕ
eagain = 11

pub data Poll : Type 0 where
  failed : ℕ → Poll
  timeout : Poll
  ready : Poll

-- A descriptor or a watch that could not be had is `none`. `pending`: what successive reads of the descriptor,
-- which do not block, answer: the masks of the events in each buffer, up to the first read that gives nothing, and
-- the error number of that one.
pub record InotifySys (W : Type 0) : Type 0 where
  pub init : W → Option ℤ × W
  pub add_watch : ℤ → Text → ℕ → W → Option ℤ × W
  pub rm_watch : ℤ → ℤ → W → W
  pub close : ℤ → W → W
  pub poll : ℤ → ℤ → W → Poll × W
  pub pending : ℤ → W → (List (List ℕ) × ℕ) × W
  pub sleep : ℕ → W → W

abbrev pub watched : ℕ
watched = 0xc08

-- `as c_int` of a product that wraps around.
unfoldable pub wrap_i32 : ℕ → ℤ
wrap_i32 n =
    if ltb (n % 2 ^ 32) (2 ^ 31) then pos (n % 2 ^ 32) else negsuc (2 ^ 32 - 1 - n % 2 ^ 32)

-- What the events ask for: a reload, and a new watch.
pub record Asked : Type 0 where
  pub reload_needed : Bool
  pub needs_rewatch : Bool

unfoldable pub event_asks : ℕ → Asked → Asked
event_asks mask a =
    if not (bit_and mask watched == 0)
    then record {
      reload_needed = true;
      needs_rewatch = a.needs_rewatch || not (bit_and mask 0xc00 == 0);
    }
    else a

abbrev pub buffer_asks : List ℕ → Asked → Asked
unfolding event_asks
buffer_asks [] a = a
buffer_asks (m ∷ ms) a = buffer_asks ms (event_asks m a)

abbrev pub buffers_ask : List (List ℕ) → Asked → Asked
unfolding buffer_asks
buffers_ask [] a = a
buffers_ask (b ∷ bs) a = buffers_ask bs (buffer_asks b a)

module _ {W : Type 0} (sys : DaemonSys W) (isys : InotifySys W) where
  unfoldable pub disable_inotify : ℤ → Globals × W → Globals × W
  disable_inotify fd (g, w) = (
    record g { inotify_supported = false; inotify_fd = negsuc 0; inotify_wd = negsuc 0 },
    isys.close fd w,
  )

  abbrev watch_new : ℤ → Globals → Option ℤ × W → Bool × (Globals × W)
  unfolding disable_inotify
  watch_new fd g (none, w) = (false, disable_inotify fd (g, w))
  watch_new fd g (some wd, w) = (true, (record g { inotify_wd = wd }, w))

  unfoldable pub inotify_rewatch : ℤ → Globals × W → Bool × (Globals × W)
  unfolding watch_new disable_inotify
  inotify_rewatch fd (g, w) =
      let w₁ = isys.rm_watch fd g.inotify_wd w in
      if contains g.config_file 0
      then (false, disable_inotify fd (g, w₁))
      else watch_new fd g (isys.add_watch fd g.config_file watched w₁)

  abbrev watch_first : ℤ → Globals → Option ℤ × W → Globals × W
  watch_first fd g (none, w) = (g, isys.close fd w)
  watch_first fd g (some wd, w) =
      (record g { inotify_supported = true; inotify_fd = fd; inotify_wd = wd }, w)

  abbrev init_with : Text → Globals → Option ℤ × W → Globals × W
  init_with file g (none, w) = (g, w)
  init_with file g (some fd, w) =
      if contains file 0
      then (g, isys.close fd w)
      else watch_first fd g (isys.add_watch fd file watched w)

  unfoldable pub init_inotify : Text → Globals × W → Globals × W
  init_inotify file (g, w) = init_with file g (isys.init w)

  abbrev reload_asked : Bool → Loader W → Loader W
  unfolding config_reload
  reload_asked needed s = if needed then config_reload sys s else s

  abbrev pub after_events : ℕ → ℤ → Asked → Loader W → Loader W
  unfolding reload_asked inotify_rewatch
  after_events interval fd a (last, (g, w)) =
      let last' = if a.reload_needed then negsuc 0 else last in
      if a.needs_rewatch
      then (let (again, s) = inotify_rewatch fd (g, isys.sleep interval w) in
          if again then reload_asked a.reload_needed (last', s) else (last', s))
      else reload_asked a.reload_needed (last', (g, w))

  -- A read that fails otherwise ends the watch; the events in front of it have reset `last_mtime` all the same.
  abbrev pub events_read : ℕ → ℤ → ℤ → Globals → (List (List ℕ) × ℕ) × W → Loader W
  unfolding after_events buffers_ask disable_inotify
  events_read interval fd last g ((buffers, errno), w) =
      let a = buffers_ask buffers (record { reload_needed = false; needs_rewatch = false }) in
      if errno == eagain || errno == eintr
      then after_events interval fd a (last, (g, w))
      else ((if a.reload_needed then negsuc 0 else last), disable_inotify fd (g, w))

  abbrev pub polled : ℕ → ℤ → ℤ → Globals → Poll × W → Loader W
  unfolding events_read disable_inotify
  polled interval fd last g (failed errno, w) =
      if errno == eintr then (last, (g, w)) else (last, disable_inotify fd (g, w))
  polled interval fd last g (timeout, w) = (last, (g, w))
  polled interval fd last g (ready, w) = events_read interval fd last g (isys.pending fd w)

  unfoldable pub inotify_handle : ℕ → Loader W → Loader W
  unfolding polled wrap_i32
  inotify_handle interval (last, (g, w)) =
      polled interval g.inotify_fd last g (isys.poll g.inotify_fd (wrap_i32 (interval * 1000)) w)

  abbrev rewatched : Globals × W → Globals × W
  unfolding inotify_rewatch
  rewatched (g, w) = if g.inotify_supported then (inotify_rewatch g.inotify_fd (g, w)).1 else (g, w)

  -- `FORCE_RELOAD.swap(false)` and what follows if it was set.
  unfoldable pub forced : Loader W → Loader W
  unfolding rewatched config_reload
  forced (last, (g, w)) =
      if g.force_reload
      then config_reload sys (negsuc 0, rewatched (record g { force_reload = false }, w))
      else (last, (g, w))

  abbrev slept : ℕ → Loader W → Loader W
  slept interval (last, (g, w)) = (last, (g, isys.sleep interval w))

  abbrev pub waited : ℕ → Loader W → Loader W
  unfolding inotify_handle config_reload
  waited interval (last, (g, w)) =
      if g.inotify_supported
      then inotify_handle interval (last, (g, w))
      else slept interval (config_reload sys (last, (g, w)))

  -- One round of the loop.
  unfoldable pub loader_round : Loader W → Loader W
  unfolding forced waited
  loader_round (last, (g, w)) = waited (max g.check_interval 1) (forced (last, (g, w)))
