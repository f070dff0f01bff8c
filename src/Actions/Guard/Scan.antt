-- ===== src/Actions/Guard/Scan.antt =====
-- The scan finds every URL, however deep it lies.
use ieum_agent.Base.{
  ℕ, ◌+◌, ◌≡◌, refl, String, true, false, ◌||◌, Option, none, some, All, All-append, arith,
}
use ieum_agent.Value.{
  Value, null, bool, int, float, text, list, dict, Values, nil, cons, Entries, end, entry,
}
use ieum_agent.Value.Text.{starts_with, show}
use ieum_agent.Validator.Strings.{at}
use ieum_agent.Validator.Strings.Preorder.{strings, value_strings, entry_strings}
use ieum_agent.Actions.Guard.{
  Web, is_unsafe, scan_text, or_next, scan_urls, scan_values, scan_entries,
}

module _ (web : Web) where
  -- a text that is no URL, or one that is not refused
  abbrev pub Harmless : String × String → Type 0
  Harmless (loc, s) =
      (starts_with s "http://" || starts_with s "https://") ≡ true → is_unsafe web s ≡ false

  scan_text-none : (loc s : String) → scan_text web s ≡ none → Harmless (loc, s)
  scan_text-none loc s h url = ground arith

  pub or_next-none : (a b : Option String) → or_next web a b ≡ none → (a ≡ none) × (b ≡ none)
  or_next-none none b h = (refl, h)
  or_next-none (some url) b h = cc

  mutual
    unfolding scan_urls strings

    scan-Harmless :
        (loc : String) (v : Value) → scan_urls web v ≡ none → All Harmless (strings loc v)
    scan-Harmless loc null h = tt
    scan-Harmless loc (bool b) h = tt
    scan-Harmless loc (int n) h = tt
    scan-Harmless loc (float x) h = tt
    scan-Harmless loc (text s) h = (scan_text-none loc s h, tt)
    scan-Harmless loc (list vs) h = values-Harmless loc 0 vs h
    scan-Harmless loc (dict es) h = entries-Harmless loc es h

    values-Harmless :
        (loc : String) (i : ℕ) (vs : Values)
        → scan_values web vs ≡ none
        → All Harmless (value_strings loc i vs)
    values-Harmless loc i nil h = tt
    values-Harmless loc i (cons v vs) h =
        let (a, b) = or_next-none (scan_urls web v) (scan_values web vs) h in
        All-append Harmless (strings (at loc (show i)) v) (value_strings loc (i + 1) vs)
          (scan-Harmless (at loc (show i)) v a) (values-Harmless loc (i + 1) vs b)

    entries-Harmless :
        (loc : String) (es : Entries)
        → scan_entries web es ≡ none
        → All Harmless (entry_strings loc es)
    entries-Harmless loc end h = tt
    entries-Harmless loc (entry k v es) h =
        let (a, b) = or_next-none (scan_urls web v) (scan_entries web es) h in
        All-append Harmless (strings (at loc k) v) (entry_strings loc es)
          (scan-Harmless (at loc k) v a) (entries-Harmless loc es b)

  pub scan_urls_sound : (v : Value) → scan_urls web v ≡ none → All Harmless (strings "" v)
  scan_urls_sound v h = scan-Harmless "" v h
