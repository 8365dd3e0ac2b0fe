-- ===== src/Exemptions.antt =====
-- squatter/exemptions.py: `ExemptionList`, the names that are left in peace.
--
-- The Python set is a list without repetition. Reading the file is an argument, the outcome of
-- `self.path.read_text(encoding="utf-8")`; `dns.name.from_text`, name equality and `is_subdomain`
-- are parameters.
pub mod Coverage
use mathlib.Core.Logic.{ite}
use honeycow.Prelude.{
  ℕ, Bool, true, false, ◌||◌, Option, none, some, List, [], ◌∷◌, ◌++◌, String, Text, length, any,
  is_empty, if◌then◌else◌, strip, before, splitlines, ends_with,
}

-- What `read_text` does: a text, an `OSError`, or a `UnicodeDecodeError`, which `load` lets pass.
pub data ReadText : Type 0 where
  contents : Text → ReadText
  os_error decode_error : ReadText

-- What `load` does: it returns the old and the new count, or the exception of the decoder leaves.
pub data Loaded (S : Type 0) : Type 0 where
  counts : S → ℕ → ℕ → Loaded S
  raised : S → Loaded S

-- `raw_line.split("#", 1)[0].strip()`
unfoldable pub clean_line : Text → Text
clean_line raw_line = strip (before b'#' raw_line)

-- `line if line.endswith(".") else line + "."`
unfoldable pub absolute : Text → Text
absolute line = if ends_with b'.' line then line else line ++ b'.' ∷ []

pub record ExemptionList (Name : Type 0) : Type 0 where
  pub path : Option String
  pub exempt : List Name

module _ {Name : Type 0} (dec : Discrete Name) where
  unfoldable pub is_member : Name → List Name → Bool
  is_member n [] = false
  is_member n (m ∷ s) = ite (dec n m) true (is_member n s)

  -- `new_set.add(name)`
  unfoldable pub add_name : Name → List Name → List Name
  add_name n s = if is_member n s then s else s ++ n ∷ []

  unfoldable pub is_exempt : (Name → Name → Bool) → ExemptionList Name → Name → Bool
  is_exempt is_subdomain l qname =
      if is_empty l.exempt
      then false
      else if is_member qname l.exempt
      then true
      else any l.exempt (is_subdomain qname)

module _ {Name : Type 0} (from_text : Text → Option Name) (dec : Discrete Name) where
  -- The loop of `load`; `none` is the early return at a line that is no name.
  unfoldable pub load_loop : List Text → List Name → Option (List Name)
  load_loop [] new_set = some new_set
  load_loop (raw_line ∷ rest) new_set =
      let skipped = load_loop rest new_set in
      if is_empty (clean_line raw_line)
      then skipped
      else elim (from_text (absolute (clean_line raw_line))) [
        | none ↦ none
        | some name ↦ load_loop rest (add_name dec name new_set)
      ]

  unfoldable pub reload : ExemptionList Name → Option (List Name) → Loaded (ExemptionList Name)
  reload l none = counts l (length l.exempt) (length l.exempt)
  reload l (some new_set) =
      counts (record l { exempt = new_set }) (length l.exempt) (length new_set)

  unfoldable pub load_text : ExemptionList Name → ReadText → Loaded (ExemptionList Name)
  load_text l (contents text) = reload l (load_loop (splitlines text) [])
  load_text l os_error = counts l (length l.exempt) (length l.exempt)
  load_text l decode_error = raised l

  -- `if self.path is None`
  unfoldable pub load_path :
      (String → ReadText) → ExemptionList Name → Option String → Loaded (ExemptionList Name)
  load_path read_text l none = counts l (length l.exempt) (length l.exempt)
  load_path read_text l (some path) = load_text l (read_text path)

  unfoldable pub load : (String → ReadText) → ExemptionList Name → Loaded (ExemptionList Name)
  load read_text l = load_path read_text l l.path
