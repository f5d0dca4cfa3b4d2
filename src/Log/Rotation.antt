-- ===== src/Log/Rotation.antt =====
-- soaregister/log.c: where a line goes.
use ddmframework.Common.{
  ◌&&◌, ◌||◌, ltb, length-take, ℕ, ◌-◌, ◌≤◌, ◌≡◌, refl, sym, ap, ◌∙◌, inl, inr, ◌⊎◌, Bool, true,
  false, not, List, [], ◌∷◌, ◌++◌, Option, none, some, Option-cases, Bool-cases, arith, Key, str_eq,
  length, length-append, ==_iff, if◌then◌else◌,
}
use ddmframework.Conn.{snprintf_s}
use ddmframework.Config.{path_max}
use ddmframework.Log.{
  level_none, level_debug, level_info, level_notice, level_warn, level_error, level_fatal,
  level_value, is_none, write_to, Level, LogHandle, Files, log_path, switch_file, is_moved,
  prepare_log, write_line, logv, is_dropped, log_write,
}

-- No file has been opened yet, or the open file is the one whose inode is known.
abbrev pub IsReady : LogHandle → Type 0
IsReady h = (h.filename ≡ []) ⊎ ((inode : ℕ) × (h.fp ≡ some inode) × (h.inode_value ≡ some inode))

-- A file that is opened stands under its path.
abbrev pub IsHonest : Files → Key → Type 0
IsHonest files path =
    (inode : ℕ) → files.fopen path ≡ some inode → files.inode_after path ≡ some inode

-- How the file of a day is prepared.
abbrev pub Prepared : Files → Key → LogHandle → LogHandle × Bool → Type 0
Prepared files path h r =
    ((files.fopen path ≡ none) × (r ≡ (record h { fp = none; status = false }, false)))
    ⊎ ((h' : LogHandle) × (inode : ℕ) × (r ≡ (h', true))
        × (h'.fp ≡ some inode)
        × (h'.inode_value ≡ some inode)
        × ((files.get_inode path ≡ some inode) ⊎ (files.fopen path ≡ some inode)))

switch_file_lem :
    (files : Files) (path : Key) (h : LogHandle)
    → IsHonest files path
    → Prepared files path h (switch_file files path h)
unfolding switch_file
switch_file_lem files path h honest = elim (Option-cases (files.fopen path)) [
  | inl e ↦ inl (e, rw (e, switch_file) refl)
  | inr (inode, e) ↦ inr (
    record h {
      fp = some inode;
      filename = snprintf_s path_max path;
      inode_value = files.inode_after path;
    },
    inode,
    rw (e, switch_file) refl,
    refl,
    honest inode e,
    inr e,
  )
]

not_moved : (inode : ℕ) (cur : Option ℕ) → is_moved (some inode) cur ≡ false → cur ≡ some inode
unfolding is_moved
not_moved inode none e = absurd (cc)
not_moved inode (some cur) e = ground (arith, ==_iff inode cur)

moves :
    (files : Files) (day : List ℕ) (h : LogHandle)
    → not (str_eq (log_path h day) h.filename) ≡ true
    → prepare_log files day h ≡ switch_file files (log_path h day) h
unfolding prepare_log
moves files day h e = rw e refl

stays :
    (files : Files) (day : List ℕ) (h : LogHandle) (b : Bool)
    → not (str_eq (log_path h day) h.filename) ≡ false
    → is_moved h.inode_value (files.get_inode (log_path h day)) ≡ b
    → prepare_log files day h ≡ (if b then switch_file files (log_path h day) h else (h, true))
unfolding prepare_log
stays files day h b e moved = rw (e, moved) refl

named : (path : Key) → 1 ≤ length path → not (str_eq path []) ≡ false → ⊥
unfolding str_eq
named [] h e = omega arith
named (c ∷ path) h e = cc

prepare_log_lem :
    (files : Files) (day : List ℕ) (h : LogHandle)
    → IsHonest files (log_path h day)
    → IsReady h
    → 1 ≤ length (log_path h day)
    → Prepared files (log_path h day) h (prepare_log files day h)
prepare_log_lem files day h honest ready some_path =
    let path = log_path h day in
    elim (Bool-cases (not (str_eq path h.filename))) [
      | inl e ↦ rw (moves files day h e) (switch_file_lem files path h honest)
      | inr e ↦ elim (Bool-cases (is_moved h.inode_value (files.get_inode path))) [
        | inl moved ↦ rw (stays files day h true e moved) (switch_file_lem files path h honest)
        | inr there ↦ rw (stays files day h false e there) (same_file e there ready)
      ]
    ]
  where
    same_file :
        not (str_eq (log_path h day) h.filename) ≡ false
        → is_moved h.inode_value (files.get_inode (log_path h day)) ≡ false
        → IsReady h
        → Prepared files (log_path h day) h (h, true)
    same_file e there (inl unnamed) = absurd (
        named (log_path h day) some_path
          (ap (λ f. not (str_eq (log_path h day) f)) (sym unnamed) ∙ e))
    same_file e there (inr (inode, opened, known)) = inr (
      h,
      inode,
      refl,
      opened,
      known,
      inl (
          not_moved inode (files.get_inode (log_path h day))
            (ap (λ i. is_moved i (files.get_inode (log_path h day))) (sym known) ∙ there)),
    )

some_path : (h : LogHandle) (day : List ℕ) → 1 ≤ length (log_path h day)
unfolding log_path
some_path h day = omega (
  arith,
  length-take (path_max - 1) (h.filenametpl ++ b'.' ∷ day),
  length-append h.filenametpl (b'.' ∷ day),
)

-- The levels whose lines a set level lets through, by their names.
unfoldable pub passes : (set : Level) → Level → Bool
passes level_none level = false
passes level_debug level_none = false
passes level_debug level = true
passes level_info level_none = false
passes level_info level_debug = false
passes level_info level = true
passes level_notice level_notice = true
passes level_notice level_warn = true
passes level_notice level_error = true
passes level_notice level_fatal = true
passes level_notice level = false
passes level_warn level_warn = true
passes level_warn level_error = true
passes level_warn level_fatal = true
passes level_warn level = false
passes level_error level_error = true
passes level_error level_fatal = true
passes level_error level = false
passes level_fatal level_fatal = true
passes level_fatal level = false

abbrev Agrees : (set level : Level) → Type 0
Agrees set level =
    (is_none set || ltb (level_value level) (level_value set)) ≡ not (passes set level)

passes_lem : (set level : Level) → Agrees set level
unfolding is_none level_value passes
passes_lem level_none level = refl
passes_lem level_debug level = elim level as (Agrees level_debug) [
  | level_none ↦ refl
  | level_debug ↦ refl
  | level_info ↦ refl
  | level_notice ↦ refl
  | level_warn ↦ refl
  | level_error ↦ refl
  | level_fatal ↦ refl
]
passes_lem level_info level = elim level as (Agrees level_info) [
  | level_none ↦ refl
  | level_debug ↦ refl
  | level_info ↦ refl
  | level_notice ↦ refl
  | level_warn ↦ refl
  | level_error ↦ refl
  | level_fatal ↦ refl
]
passes_lem level_notice level = elim level as (Agrees level_notice) [
  | level_none ↦ refl
  | level_debug ↦ refl
  | level_info ↦ refl
  | level_notice ↦ refl
  | level_warn ↦ refl
  | level_error ↦ refl
  | level_fatal ↦ refl
]
passes_lem level_warn level = elim level as (Agrees level_warn) [
  | level_none ↦ refl
  | level_debug ↦ refl
  | level_info ↦ refl
  | level_notice ↦ refl
  | level_warn ↦ refl
  | level_error ↦ refl
  | level_fatal ↦ refl
]
passes_lem level_error level = elim level as (Agrees level_error) [
  | level_none ↦ refl
  | level_debug ↦ refl
  | level_info ↦ refl
  | level_notice ↦ refl
  | level_warn ↦ refl
  | level_error ↦ refl
  | level_fatal ↦ refl
]
passes_lem level_fatal level = elim level as (Agrees level_fatal) [
  | level_none ↦ refl
  | level_debug ↦ refl
  | level_info ↦ refl
  | level_notice ↦ refl
  | level_warn ↦ refl
  | level_error ↦ refl
  | level_fatal ↦ refl
]

is_dropped-passes :
    (level : Level) (h : LogHandle) → is_dropped level h ≡ not (h.status && passes h.level level)
unfolding is_dropped
is_dropped-passes level h = ground (arith, passes_lem h.level level)

-- How a call of `log_write` ends.
abbrev pub Ends :
    Files
    → Key
    → (dropped : Bool) → (line : List ℕ) → (h h' : LogHandle) → Option (ℕ × List ℕ)
    → Type 0
Ends files path dropped line h h' out =
    ((dropped ≡ true) × (h' ≡ h) × (out ≡ none))
    ⊎ ((files.fopen path ≡ none) × (h'.status ≡ false) × (out ≡ none))
    ⊎ ((inode : ℕ) × (out ≡ some (inode, line))
        × IsReady h'
        × ((files.get_inode path ≡ some inode) ⊎ (files.fopen path ≡ some inode)))

-- Logging never writes through a NULL file. A line is dropped exactly when logging has ended, the
-- set level is none or the line is less serious than the set level. Any other line goes to the
-- file that stands under the path of the day when the call begins, or to the one that the call has
-- opened there, even when the day has changed or the file was moved or deleted since the last line;
-- if that file cannot be opened, the line is lost and logging ends. What is opened stands under its
-- path, and the handle is one that `open_log` or an earlier line has left.
pub log_write_lem :
    (files : Files) (day line : List ℕ) (level : Level) (h : LogHandle)
    → IsHonest files (log_path h day)
    → IsReady h
    → (h' : LogHandle) × (out : Option (ℕ × List ℕ)) × (log_write files day line level h
        ≡ some (h', out))
      × Ends files (log_path h day) (not (h.status && passes h.level level)) line h h' out
unfolding log_write logv write_line write_to
log_write_lem files day line level h honest ready = elim (Bool-cases (is_dropped level h)) [
  | inl e ↦ (h, none, rw (e, log_write) refl, inl (sym (is_dropped-passes level h) ∙ e, refl, refl))
  | inr e ↦ elim (prepare_log_lem files day h honest ready (some_path h day)) [
    | inl (closed, r) ↦ (
      record h { fp = none; status = false },
      none,
      rw (e, log_write) (ap (write_line line) r),
      inr (inl (closed, refl, refl)),
    )
    | inr (h', inode, r, opened, known, there) ↦ (
      h',
      some (inode, line),
      rw (e, log_write) (ap (write_line line) r ∙ ap (write_to line h') opened),
      inr (inr (inode, refl, inr (inode, opened, known), there)),
    )
  ]
]
