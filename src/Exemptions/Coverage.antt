-- ===== src/Exemptions/Coverage.antt =====
-- Which names a loaded file exempts, and what a failed load leaves.
use honeycow.Prelude.{
  Bool, true, false, ◌||◌, ◌≡◌, refl, ◌∙◌, Option, none, some, List, [], ◌∷◌, ◌++◌, String, Text,
  any, is_empty, is_some, if◌then◌else◌, splitlines, arith, inl, inr, Bool-cases, Option-cases,
}
use honeycow.Exemptions.{
  ReadText, contents, os_error, decode_error, Loaded, counts, raised, clean_line, absolute,
  ExemptionList, is_member, add_name, load_loop, reload, load_text, load_path, load, is_exempt,
}

-- The list that stands after a load.
abbrev pub current : {S : Type 0} → Loaded S → S
current (counts l old new) = l
current (raised l) = l

module _ {Name : Type 0} (from_text : Text → Option Name) (dec : Discrete Name) where
  -- The name that a line stands for: none for a blank line, a comment, or what is no name.
  unfoldable pub entry : Text → Option Name
  entry raw_line =
      if is_empty (clean_line raw_line) then none else from_text (absolute (clean_line raw_line))

  -- The line is blank, a comment, or a name.
  unfoldable pub is_readable : Text → Bool
  is_readable raw_line =
      is_empty (clean_line raw_line)
      || (elim (from_text (absolute (clean_line raw_line))) [ none ↦ false | some name ↦ true ])

  abbrev pub all_readable : List Text → Bool
  all_readable [] = true
  all_readable (l ∷ ls) = if is_readable l then all_readable ls else false

  -- A line covers a name that is its entry or lies below it.
  unfoldable pub covers : (Name → Name → Bool) → Name → Text → Bool
  covers is_subdomain q raw_line = elim (entry raw_line) [
    | none ↦ false
    | some name ↦ is_subdomain q name
  ]

  module _ (is_subdomain : Name → Name → Bool) (below : (n : Name) → is_subdomain n n ≡ true)
      (q : Name) where
    any-append :
        (s t : List Name)
        → any (s ++ t) (is_subdomain q) ≡ (any s (is_subdomain q) || any t (is_subdomain q))
    any-append [] t = refl
    any-append (x ∷ s) t = ground (arith, any-append s t)

    any_of_member :
        (n : Name) (s : List Name)
        → is_member dec n s ≡ true
        → is_subdomain q n ≡ true
        → any s (is_subdomain q) ≡ true
    unfolding is_member
    any_of_member n [] h k = cc
    any_of_member n (m ∷ s) h k = elim (dec n m) [
      | yes p ↦ ground (arith, rw p at k)
      | no p ↦ ground (arith, any_of_member n s)
    ]

    any-add_name :
        (n : Name) (s : List Name)
        → any (add_name dec n s) (is_subdomain q) ≡ (any s (is_subdomain q) || is_subdomain q n)
    unfolding add_name
    any-add_name n s = ground (arith, any_of_member n s, any-append s (n ∷ []))

    any-load_loop :
        (lines : List Text) (s t : List Name)
        → load_loop from_text dec lines s ≡ some t
        → any t (is_subdomain q) ≡ (any s (is_subdomain q) || any lines (covers is_subdomain q))
    unfolding load_loop covers entry
    any-load_loop [] s t h = ground arith
    any-load_loop (raw_line ∷ lines) s t h = elim (Bool-cases (is_empty (clean_line raw_line))) [
      | inl blank ↦ ground (arith, blank, any-load_loop lines s t)
      | inr full ↦ elim (Option-cases (from_text (absolute (clean_line raw_line)))) [
        | inl bad ↦ ground (arith, full, bad)
        | inr (name, good) ↦
            ground
              (arith, full, good, any-load_loop lines (add_name dec name s) t, any-add_name name s)
      ]
    ]

    member_any :
        (s : List Name)
        → (if is_empty s then false else if is_member dec q s then true else any s (is_subdomain q))
          ≡ any s (is_subdomain q)
    member_any [] = refl
    member_any (n ∷ s) = ground (arith, any_of_member q (n ∷ s), below q)

    -- Membership in the set is one case of lying below an entry.
    is_exempt-any :
        (l : ExemptionList Name) → is_exempt dec is_subdomain l q ≡ any l.exempt (is_subdomain q)
    unfolding is_exempt
    is_exempt-any l = member_any l.exempt

    all_readable-load_loop :
        (lines : List Text) (s : List Name)
        → all_readable lines ≡ is_some (load_loop from_text dec lines s)
    unfolding load_loop is_readable
    all_readable-load_loop [] s = refl
    all_readable-load_loop (raw_line ∷ lines) s =
        elim (Bool-cases (is_empty (clean_line raw_line))) [
          | inl blank ↦ ground (arith, blank, all_readable-load_loop lines s)
          | inr full ↦ elim (Option-cases (from_text (absolute (clean_line raw_line)))) [
            | inl bad ↦ ground (arith, full, bad)
            | inr (name, good) ↦
                ground (arith, full, good, all_readable-load_loop lines (add_name dec name s))
          ]
        ]

    -- Whether the name is exempt after a load, in terms of the file and of the list before.
    abbrev pub exempt_after_text : Bool → ReadText → Bool
    exempt_after_text was (contents text) =
        if all_readable (splitlines text)
        then any (splitlines text) (covers is_subdomain q)
        else was
    exempt_after_text was os_error = was
    exempt_after_text was decode_error = was

    is_exempt-load_text :
        (l : ExemptionList Name) (file : ReadText)
        → is_exempt dec is_subdomain (current (load_text from_text dec l file)) q
          ≡ exempt_after_text (is_exempt dec is_subdomain l q) file
    unfolding load_text reload
    is_exempt-load_text l os_error = refl
    is_exempt-load_text l decode_error = refl
    is_exempt-load_text l (contents text) =
        elim (Option-cases (load_loop from_text dec (splitlines text) [])) [
          | inl bad ↦ rw (all_readable-load_loop (splitlines text) []) (rw bad)
          | inr (t, good) ↦ rw (all_readable-load_loop (splitlines text) []) (
              rw good (
                is_exempt-any (record l { exempt = t })
                ∙ any-load_loop (splitlines text) [] t good))
        ]

    abbrev pub exempt_after : Bool → (String → ReadText) → Option String → Bool
    exempt_after was read_text none = was
    exempt_after was read_text (some path) = exempt_after_text was (read_text path)

    is_exempt-load_path :
        (read_text : String → ReadText) (l : ExemptionList Name) (path : Option String)
        → is_exempt dec is_subdomain (current (load_path from_text dec read_text l path)) q
          ≡ exempt_after (is_exempt dec is_subdomain l q) read_text path
    unfolding load_path
    is_exempt-load_path read_text l none = refl
    is_exempt-load_path read_text l (some path) = is_exempt-load_text l (read_text path)

    -- Whether a name is exempt after `load`, on every outcome. With no path, an unreadable file or
    -- a line that is no name, it is exempt as before; otherwise exactly if a line of the file
    -- covers it, whatever the list held before.
    pub is_exempt-load :
        (read_text : String → ReadText) (l : ExemptionList Name)
        → is_exempt dec is_subdomain (current (load from_text dec read_text l)) q
          ≡ exempt_after (is_exempt dec is_subdomain l q) read_text l.path
    unfolding load
    is_exempt-load read_text l = is_exempt-load_path read_text l l.path
