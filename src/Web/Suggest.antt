-- ===== src/Web/Suggest.antt =====
-- AppOptR/src/web.rs: `suggest_api`, with `rank_top`, `suggest_pkgs` and `suggest_threads`.
pub mod Top
use app_opt_r_plus.Prelude.{
  ℕ, ◌+◌, ◌-◌, ◌^◌, Bool, true, false, not, ◌&&◌, ◌||◌, Option, none, some, List, [], ◌∷◌, ◌++◌,
  ltb, ◌==◌, if◌then◌else◌, is_empty, take, map, keep, min,
}
use app_opt_r_plus.Prelude.Int.{ℤ, pos}
use app_opt_r_plus.Prelude.Text.{
  Text, codes, text_eq, trim, contains, contains_text, starts_with, byte_len, lower_char,
}
use app_opt_r_plus.Config.Load.{AppConfig, max_pkg_len}
use app_opt_r_plus.Proc.{ProcSys, read_cmdline, task_tids, numbers, show_i32}
use app_opt_r_plus.Ebpf.{bytes_lt}
use app_opt_r_plus.Json.{Value, bool, str, array, object, Items, nil, cons, Fields, end, field}
use app_opt_r_plus.Tuning.Store.{app_package_names}
use app_opt_r_plus.Daemon.{Globals, DaemonSys}
use app_opt_r_plus.Web.{token_ok}
use app_opt_r_plus.Web.Settings.{or_default}
use app_opt_r_plus.Web.Request.{Request, lowered}
use app_opt_r_plus.Web.Dispatch.{Answer, err_json}
use app_opt_r_plus.Web.Configure.{body_value, bad_body}
use app_opt_r_plus.Web.Rules.{trimmed_at}

-- A map from names to counts, without a name that stands twice.
abbrev pub Counts : Type 0
Counts = List (Text × ℕ)

unfoldable pub update : Text → (Option ℕ → ℕ) → Counts → Counts
update n f [] = (n, f none) ∷ []
update n f ((k, c) ∷ cs) = if text_eq k n then (k, f (some c)) ∷ cs else (k, c) ∷ update n f cs

-- `insert`, and `or_insert(0)` with one more, which stays below `2 ^ 64`.
abbrev pub put_count : Text → ℕ → Counts → Counts
unfolding update
put_count n c cs = update n (λ old. c) cs

abbrev one_more : Option ℕ → ℕ
one_more none = 1
one_more (some c) = min (c + 1) (2 ^ 64 - 1)

abbrev pub bump : Text → Counts → Counts
unfolding update
bump n cs = update n one_more cs

-- A name with its rank and its count.
pub record Ranked : Type 0 where
  pub rank : ℕ
  pub count : ℕ
  pub name : Text

unfoldable pub rank_of : Text → Text → ℕ
rank_of lq n =
    if starts_with (lowered n) lq then 0 else if contains_text (lowered n) lq then 1 else 2

unfoldable pub ranked : Text → Counts → List Ranked
unfolding rank_of
ranked lq [] = []
ranked lq ((n, c) ∷ cs) =
    let r = rank_of lq n in
    if ltb r 2 then record { rank = r; count = c; name = n } ∷ ranked lq cs else ranked lq cs

-- The order of the triples: the rank, the greater count, the name.
abbrev pub before : Ranked → Ranked → Bool
before a b =
    ltb a.rank b.rank
    || (a.rank == b.rank && (ltb b.count a.count || (b.count == a.count && bytes_lt a.name b.name)))

unfoldable pub insert_ranked : Ranked → List Ranked → List Ranked
insert_ranked x [] = x ∷ []
insert_ranked x (y ∷ ys) = if before y x then y ∷ insert_ranked x ys else x ∷ y ∷ ys

unfoldable pub sort_ranked : List Ranked → List Ranked
unfolding insert_ranked
sort_ranked [] = []
sort_ranked (x ∷ xs) = insert_ranked x (sort_ranked xs)

unfoldable pub rank_top : Counts → Text → List (Text × ℕ)
unfolding ranked sort_ranked
rank_top counts lq = map (λ r. (r.name, r.count)) (take 20 (sort_ranked (ranked lq counts)))

abbrev put_all : ℕ → List Text → Counts → Counts
unfolding put_count
put_all c [] cs = cs
put_all c (n ∷ ns) cs = put_all c ns (put_count n c cs)

abbrev pub configured_priority : ℕ
configured_priority = 1000000

abbrev or_none : Option (List Text) → List Text
or_none none = []
or_none (some ns) = ns

abbrev dotted : Text → Bool
unfolding contains starts_with
dotted n = contains n b'.' && not (starts_with n (codes "."))

abbrev pkgs_of : Option AppConfig → List Text
pkgs_of none = []
pkgs_of (some c) = c.pkgs

abbrev drop_nul : Text → Text
drop_nul [] = []
drop_nul (c ∷ s) = let r = drop_nul s in if is_empty r && (c == 0 || c == 10) then [] else c ∷ r

abbrev non_empty : Text → Option Text
non_empty s = if is_empty s then none else some s

abbrev names_of : List (Text × ℕ) → Items
names_of [] = nil
names_of ((n, c) ∷ rs) = cons (str n) (names_of rs)

abbrev list_json : List (Text × ℕ) → Answer
list_json rs =
    (200, object (field (codes "ok") (bool true) (field (codes "list") (array (names_of rs)) end)))

abbrev ids_of : Option (List ℤ) → List ℤ
ids_of none = []
ids_of (some ids) = ids

module _ {W : Type 0} (sys : DaemonSys W) (psys : ProcSys W) where
  abbrev installed_pkgs : W → List Text
  unfolding dotted
  installed_pkgs w = keep dotted (or_none (psys.read_dir (codes "/data/data") w))

  abbrev pub pids : W → List ℤ
  pids w = numbers (or_none (psys.read_dir (codes "/proc") w))

  abbrev bump_dotted : Option Text → Counts → Counts
  unfolding bump contains
  bump_dotted none cs = cs
  bump_dotted (some n) cs = if contains n b'.' then bump n cs else cs

  abbrev bump_pids : List ℤ → W → Counts → Counts
  unfolding bump_dotted read_cmdline
  bump_pids [] w cs = cs
  bump_pids (pid ∷ ps) w cs = bump_pids ps w (bump_dotted (read_cmdline psys pid w) cs)

  unfoldable pub suggest_pkgs : Text → Globals × W → List (Text × ℕ)
  unfolding put_all installed_pkgs bump_pids rank_top app_package_names
  suggest_pkgs q (g, w) =
      let installed = put_all 0 (installed_pkgs w) [] in
      let with_rules = put_all configured_priority (pkgs_of g.current_config) installed in
      let with_tuning =
        put_all configured_priority (app_package_names g.tuning_config) with_rules in
      rank_top (bump_pids (pids w) w with_tuning) (lowered q)

  abbrev comm_of : Option Text → Option Text
  unfolding trim
  comm_of none = none
  comm_of (some s) = non_empty (trim (drop_nul s))

  unfoldable pub thread_comm : ℤ → ℤ → W → Option Text
  unfolding comm_of
  thread_comm pid tid w = comm_of (
      sys.files.read
        (codes "/proc/" ++ (show_i32 pid ++ (codes "/task/" ++ (show_i32 tid ++ codes "/comm")))) w)

  abbrev bump_some : Option Text → Counts → Counts
  unfolding bump
  bump_some none cs = cs
  bump_some (some n) cs = bump n cs

  abbrev bump_tids : ℤ → List ℤ → W → Counts → Counts
  unfolding bump_some thread_comm
  bump_tids pid [] w cs = cs
  bump_tids pid (tid ∷ ts) w cs = bump_tids pid ts w (bump_some (thread_comm pid tid w) cs)

  abbrev is_pkg : Text → Option Text → Bool
  is_pkg pkg none = false
  is_pkg pkg (some n) = text_eq n pkg

  abbrev bump_threads : Text → List ℤ → W → Counts → Counts
  unfolding bump_tids read_cmdline task_tids
  bump_threads pkg [] w cs = cs
  bump_threads pkg (pid ∷ ps) w cs = bump_threads pkg ps w (
      if is_pkg pkg (read_cmdline psys pid w)
      then bump_tids pid (ids_of (task_tids psys pid w)) w cs
      else cs)

  unfoldable pub suggest_threads : Text → Text → Globals × W → List (Text × ℕ)
  unfolding bump_threads rank_top
  suggest_threads pkg q (g, w) = rank_top (bump_threads pkg (pids w) w []) (lowered q)

  abbrev suggest_for : Text → Text → Globals × W → Answer
  unfolding suggest_pkgs suggest_threads token_ok err_json
  suggest_for q pkg s =
      if is_empty pkg
      then list_json (suggest_pkgs q s)
      else if not (token_ok pkg max_pkg_len)
      then err_json 400 (codes "名称含有非法字符")
      else list_json (suggest_threads pkg q s)

  abbrev suggest_query : Value → Text → Globals × W → Answer
  unfolding suggest_for err_json byte_len
  suggest_query v q s =
      if ltb 64 (byte_len q)
      then err_json 400 (codes "q 过长")
      else suggest_for q (or_default (trimmed_at v (codes "pkg")) []) s

  abbrev suggest_value : Option Value → Globals × W → Answer
  unfolding suggest_query bad_body
  suggest_value none s = bad_body sys
  suggest_value (some v) s = suggest_query v (or_default (trimmed_at v (codes "q")) []) s

  unfoldable pub suggest_api : Request → Globals × W → Answer
  unfolding suggest_value body_value
  suggest_api req s = suggest_value (body_value sys req) s
