-- ===== src/Resources/Report.antt =====
-- src/data.cc, ReportLeak and walk_report_leak_handle, and src/tools.cc, get_uv_type: the report of the
-- handles that are open on the loop of a thread at its end.
use threadjs_lib.Base.{
  ℕ, ◌+◌, ◌≡◌, refl, sym, ap, ◌∙◌, ltb, Bool, true, false, List, [], ◌∷◌, ◌++◌, Option, none, some,
  if◌then◌else◌, arith, append_assoc, append-nil, length, lt→ltb,
}
use threadjs_lib.Errors.{codes}

-- uv_handle_type; `uv_other` is one that the switch does not name.
pub data UvType : Type 0 where
  uv_tcp uv_named_pipe uv_tty uv_udp uv_poll uv_timer uv_prepare uv_check uv_idle uv_async uv_signal
        uv_process uv_fs_event uv_fs_poll uv_other :
      UvType

unfoldable pub get_uv_type : UvType → List ℕ
get_uv_type uv_tcp = codes "UV_TCP"
get_uv_type uv_named_pipe = codes "UV_NAMED_PIPE"
get_uv_type uv_tty = codes "UV_TTY"
get_uv_type uv_udp = codes "UV_UDP"
get_uv_type uv_poll = codes "UV_POLL"
get_uv_type uv_timer = codes "UV_TIMER"
get_uv_type uv_prepare = codes "UV_PREPARE"
get_uv_type uv_check = codes "UV_CHECK"
get_uv_type uv_idle = codes "UV_IDLE"
get_uv_type uv_async = codes "UV_ASYNC"
get_uv_type uv_signal = codes "UV_SIGNAL"
get_uv_type uv_process = codes "UV_PROCESS"
get_uv_type uv_fs_event = codes "UV_FS_EVENT"
get_uv_type uv_fs_poll = codes "UV_FS_POLL"
get_uv_type uv_other = codes "!-UNKNOW"

pub record UvHandle : Type 0 where
  pub address : ℕ
  pub kind : UvType
  pub data_field : ℕ
  pub closing : Bool

pub record ReportLeak : Type 0 where
  pub buffer : List ℕ
  pub loop : ℕ
  pub handle_count : ℕ

-- Its constructor.
abbrev pub report_on : ℕ → ReportLeak
report_on loop = record { buffer = []; loop = loop; handle_count = 0 }

abbrev pub open_handles : List UvHandle → List UvHandle
open_handles [] = []
open_handles (h ∷ hs) = if h.closing then open_handles hs else h ∷ open_handles hs

-- `show` is how an ostream prints a pointer.
module _ (show : ℕ → List ℕ) where
  -- What add prints to its stream, `closing` being what uv_is_closing says.
  unfoldable pub handle_text : Bool → UvHandle → List ℕ
  unfolding get_uv_type
  handle_text closing h =
      codes "  [ "
      ++ show h.address
      ++ codes " - "
      ++ get_uv_type h.kind
      ++ codes "\t]:uv_handle_t->data[ "
      ++ show h.data_field
      ++ codes " ]"
      ++ (if closing then codes " closing" else [])
      ++ codes "\n"

  unfoldable pub add : UvHandle → ReportLeak → ReportLeak
  unfolding handle_text
  add h r = record r {
    buffer = r.buffer ++ handle_text h.closing h;
    handle_count = r.handle_count + 1;
  }

  -- What is printed, if anything.
  unfoldable pub report : ReportLeak → Option (List ℕ) × ReportLeak
  report r =
      if ltb 0 r.handle_count
      then (
        some (r.buffer ++ codes "\t-- may not free, on loop[ " ++ show r.loop ++ codes " ].\n"),
        record r { buffer = []; handle_count = 0 },
      )
      else (none, r)

  unfoldable pub walk_report_leak_handle : UvHandle → ReportLeak → ReportLeak
  unfolding add
  walk_report_leak_handle h r = if h.closing then r else add h r

  -- uv_walk over the handles of a loop.
  unfoldable pub walk : List UvHandle → ReportLeak → ReportLeak
  unfolding walk_report_leak_handle
  walk [] r = r
  walk (h ∷ hs) r = walk hs (walk_report_leak_handle h r)

  -- What is printed of the loop in free_sub_loop, by the destructor.
  unfoldable pub leak_report : ℕ → List UvHandle → Option (List ℕ)
  unfolding walk report
  leak_report loop hs = (report (walk hs (report_on loop))).0

  abbrev pub lines : List UvHandle → List ℕ
  lines [] = []
  lines (h ∷ hs) = handle_text false h ++ lines hs

  abbrev pub printed : ℕ → List UvHandle → Option (List ℕ)
  printed loop [] = none
  printed loop (h ∷ hs) =
      some (lines (h ∷ hs) ++ codes "\t-- may not free, on loop[ " ++ show loop ++ codes " ].\n")

  same_report :
      (r : ReportLeak) (b b' : List ℕ) (c c' : ℕ)
      → b ≡ b'
      → c ≡ c'
      → record r { buffer = b; handle_count = c } ≡ record r { buffer = b'; handle_count = c' }
  same_report r b b' c c' p q = cc

  walk-added :
      (hs : List UvHandle) (r : ReportLeak)
      → walk hs r ≡ record r {
        buffer = r.buffer ++ lines (open_handles hs);
        handle_count = r.handle_count + length (open_handles hs);
      }
  unfolding walk walk_report_leak_handle add
  walk-added [] r = same_report r _ _ _ _ (sym (append-nil r.buffer)) (omega arith)
  walk-added (h ∷ hs) r = by_closing (walk-added hs) h.closing
    where
      by_closing :
          ((q : ReportLeak)
            → walk hs q ≡ record q {
              buffer = q.buffer ++ lines (open_handles hs);
              handle_count = q.handle_count + length (open_handles hs);
            })
          → (b : Bool)
          → walk hs (
              if b then r else record r {
                buffer = r.buffer ++ handle_text b h;
                handle_count = r.handle_count + 1;
              })
            ≡ record r {
              buffer = r.buffer ++ lines (if b then open_handles hs else h ∷ open_handles hs);
              handle_count =
                  r.handle_count + length (if b then open_handles hs else h ∷ open_handles hs);
            }
      by_closing rest true = rest r
      by_closing rest false =
          rest (record r {
            buffer = r.buffer ++ handle_text false h;
            handle_count = r.handle_count + 1;
          })
          ∙ same_report r _ _ _ _
              (append_assoc r.buffer (handle_text false h) (lines (open_handles hs))) (omega arith)

  -- The report of a loop names the handles on it that are not closing, in the order of uv_walk, and
  -- none of them as closing, with the loop in the last line; where there is none, nothing is printed.
  pub leak_report-open :
      (loop : ℕ) (hs : List UvHandle) → leak_report loop hs ≡ printed loop (open_handles hs)
  unfolding leak_report report
  leak_report-open loop hs =
      ap (λ r. (report r).0) (walk-added hs (report_on loop)) ∙ shown (open_handles hs)
    where
      shown :
          (os : List UvHandle)
          → (report
              (record { buffer = [] ++ lines os; loop = loop; handle_count = 0 + length os })).0
            ≡ printed loop os
      shown [] = refl
      shown (h ∷ os) = rw (lt→ltb 0 (0 + length (h ∷ os)) (omega arith)) refl
