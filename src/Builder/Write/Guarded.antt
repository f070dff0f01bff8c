-- ===== src/Builder/Write/Guarded.antt =====
-- What the model has written into a field that sends something.
use ieum_agent.Base.{
  ◌≡◌, refl, String, Bool, true, false, not, ◌||◌, Option, none, some, List, ◌==◌, string_eq, inl,
  inr, if_cases,
}
use mathlib.Core.Path.{subst}
use ieum_agent.Value.{Value}
use ieum_agent.Catalog.{Info, Catalog}
use ieum_agent.Builder.State.{Codec}
use ieum_agent.Builder.Write.Destinations.{Urls, Reason, is_url_field, is_email_field}
use ieum_agent.Builder.Write.Destinations.Checked.{
  SaidEmails, SaidUrl, check_emails-Said, check_url-Said,
}
use ieum_agent.Builder.Write.{
  Heard, wrote, field_at, is_names_path, get_of, is_unset, or_next, unless, check_value,
  store_checked, write_field, write,
}

or_next-none : (a b : Option Reason) → or_next a b ≡ none → (a ≡ none) × (b ≡ none)
or_next-none none b h = (refl, h)
or_next-none (some r) b h = cc

unless-none : (b : Bool) (check : Option Reason) → b ≡ false → unless b check ≡ none → check ≡ none
unless-none true check h k = cc
unless-none false check h k = k

module _ (catalog : Catalog) (codec : Codec) (urls : Urls) (draw : List String → String)
    (heard : Heard) where
  store_checked-none :
      (node : Value) (path : String) (value after : Value) (checked : Option Reason)
      → store_checked catalog codec urls draw heard node path value checked ≡ wrote after
      → checked ≡ none
  store_checked-none node path value after none h = refl
  store_checked-none node path value after (some r) h = cc

  -- A value that is written into a field that is neither a display name nor dynamic has been checked.
  write-checked :
      (fields : List Info) (node : Value) (path : String) (value after : Value) (f : Info)
      → write catalog codec urls draw heard fields node path value ≡ wrote after
      → is_names_path fields path ≡ false
      → field_at path fields ≡ some f
      → (f.fields_source == "") ≡ true
      → check_value catalog codec urls draw heard node path value f ≡ none
  unfolding write
  write-checked fields node path value after f h no_name found static =
      elim (if_cases (is_names_path fields path) h) [
        | inl (name, e) ↦ cc
        | inr (plain, e) ↦
            elim (if_cases (f.fields_source == "") (
              subst (λ o. write_field catalog codec urls draw heard node path value o ≡ wrote after)
                found e)) [
                  | inl (same, last) ↦ store_checked-none node path value after _ last
                  | inr (dynamic, last) ↦ cc
                ]
      ]

  -- If the model has written a value into a field that mails go to (that is no dynamic one): each
  -- address between its commas stands in what the user said, with no character of an address next to
  -- it, and the value has no reference.
  pub write_email_said :
      (fields : List Info) (node : Value) (path : String) (value after : Value) (f : Info)
      → write catalog codec urls draw heard fields node path value ≡ wrote after
      → is_names_path fields path ≡ false
      → field_at path fields ≡ some f
      → (f.fields_source == "") ≡ true
      → is_email_field (get_of "event" node) path ≡ true
      → is_unset value ≡ false
      → SaidEmails heard.user_text value
  write_email_said fields node path value after f h no_name found static email full =
      let checked = write-checked fields node path value after f h no_name found static in
      let (choice, others) = or_next-none _ _ checked in
      let (url, emails) = or_next-none _ _ others in
      check_emails-Said heard.user_text value (
        unless-none (is_unset value || not (is_email_field (get_of "event" node) path)) _
          (rw (full, email) refl) emails)

  -- If the model has written a value into a field that a request goes to (that is no dynamic one): it is
  -- an http or https address with a plain authority, and its host is one that the user said.
  pub write_url_said :
      (fields : List Info) (node : Value) (path : String) (value after : Value) (f : Info)
      → write catalog codec urls draw heard fields node path value ≡ wrote after
      → is_names_path fields path ≡ false
      → field_at path fields ≡ some f
      → (f.fields_source == "") ≡ true
      → is_url_field (get_of "event" node) path ≡ true
      → is_unset value ≡ false
      → SaidUrl urls heard.user_hosts value
  write_url_said fields node path value after f h no_name found static url full =
      let checked = write-checked fields node path value after f h no_name found static in
      let (choice, others) = or_next-none _ _ checked in
      let (request, emails) = or_next-none _ _ others in
      check_url-Said urls heard.user_hosts value (
        unless-none (is_unset value || not (is_url_field (get_of "event" node) path)) _
          (rw (full, url) refl) request)
