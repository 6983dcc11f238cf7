-- ===== src/Http/Race.antt =====
-- proxy/http.go: the end of a handle of `logHTTPRequest`, for requests that are served at once. All of
-- them assign to, and log, the one variable `entry` that the handle captures, without a lock.
pub mod Kept
pub mod Lines
use eth_proxy.Prelude.{
  ℕ, zero, suc, ◌+◌, ◌≡◌, ◌∙◌, refl, String, List, [], ◌∷◌, ◌++◌, Option, none, some, length, set,
  get_elem?, All, All-append, length-append, arith,
}
use eth_proxy.Http.Logging.{Access, Line, line_of}

-- Where the end of a request stands: its handler has returned, `entry` has been read for `WithFields`, it
-- has been assigned, or the request is done.
pub data Ending (Entry : Type 0) : Type 0 where
  served assigned : Access → Ending Entry
  loaded : Access → Entry → Ending Entry
  ended : Ending Entry

module _ {Entry : Type 0} (with_fields : Access → Entry → Entry) where
  pub record Handled : Type 0 where
    pub entry : Option Entry
    pub endings : List (Ending Entry)
    pub lines : List (Line Entry)

  -- A nil logger ends the request. Once it has been assigned, the variable is not nil.
  abbrev pub advance : Ending Entry → Option Entry → Option Entry × Ending Entry × List (Line Entry)
  advance (served a) none = (none, ended, [])
  advance (served a) (some e) = (some e, loaded a e, [])
  advance (loaded a e) v = (some (with_fields a e), assigned a, [])
  advance (assigned a) none = (none, ended, [])
  advance (assigned a) (some e) = (some e, ended, line_of with_fields a.http_code e ∷ [])
  advance ended e = (e, ended, [])

  abbrev pub put_ending : ℕ → Option Entry × Ending Entry × List (Line Entry) → Handled → Handled
  put_ending i (e, q, ls) s = record s {
    entry = e;
    endings = set s.endings i q;
    lines = s.lines ++ ls;
  }

  -- The next step of the request at an index.
  unfoldable pub log_step : ℕ → Handled → Handled
  log_step i s = elim (get_elem? s.endings i) [
    | none ↦ s
    | some p ↦ put_ending i (advance p s.entry) s
  ]

  -- Any interleaving.
  pub data LogSteps : Handled → Handled → Type 0 where
    here : {s : Handled} → LogSteps s s
    next : {s t : Handled} (i : ℕ) → LogSteps (log_step i s) t → LogSteps s t
