-- ===== src/Receipt/Texts.antt =====
-- What is to be read on the receipts of server/internal/receipt/pdf.go, wherever fpdf puts it.
use Prim.Native.String.{◌++◌ as join}
use mathlib.Core.List.{append_assoc, append-nil}
use xmiete.Prelude.{
  String, Bool, true, false, not, Option, none, some, List, [], ◌∷◌, ◌++◌, ◌==◌, ◌≡◌, refl, sym, ap,
  ◌∙◌, if◌then◌else◌, Bool-cases, Option-cases, inl, inr,
}
use xmiete.Amount.{Amount}
use xmiete.Models.{Address, Deposit}
use xmiete.Receipt.Calls.{
  Draw, new_document, set_margins, add_page, set_font, cell, multi_cell, ln, set_draw_color,
  set_text_color, line, set_xy, Fpdf, Drawing, ◌>>=◌, draw, when,
}
use xmiete.Receipt.Parts.{row, divider, heading, address_cells, parties, section_title, footer}

module _ {A : Type 0} where
  abbrev text_of : Draw A → List String
  text_of (cell _ _ s _ _) = s ∷ []
  text_of (multi_cell _ _ s) = s ∷ []
  text_of (new_document _ _ _ _) = []
  text_of (set_margins _ _ _) = []
  text_of add_page = []
  text_of (set_font _ _ _) = []
  text_of (ln _) = []
  text_of (set_draw_color _ _ _) = []
  text_of (set_text_color _ _ _) = []
  text_of (line _ _ _ _) = []
  text_of (set_xy _ _) = []

  -- The texts of a document in the order in which they were written.
  abbrev pub texts : List (Draw A) → List String
  texts [] = []
  texts (d ∷ done) = texts done ++ text_of d

  -- A block writes the lines, whatever was drawn before and wherever it stands.
  pub record Prints {R : Type 0} (m : Drawing A R) (l : List String) : Type 0 where
    pub reads : (done : List (Draw A)) → texts (m done).1 ≡ texts done ++ l

  pub prints_bind :
      {R T : Type 0} (m : Drawing A R) (f : R → Drawing A T) (l l' : List String)
      → Prints m l
      → ((r : R) → Prints (f r) l')
      → Prints (m >>= f) (l ++ l')
  prints_bind m f l l' p q = record {
    reads = λ done.
        (q (m done).0).reads (m done).1
        ∙ ap (λ t. t ++ l') (p.reads done)
        ∙ append_assoc (texts done) l l';
  }

  pub prints_draw : (d : Draw A) → Prints (draw d) (text_of d)
  prints_draw d = record { reads = λ done. refl }

  pub prints_when :
      (test : Bool) (m : Drawing A (Unit {0})) (l : List String)
      → Prints m l
      → Prints (when test m) (if test then l else [])
  prints_when true m l p = p
  prints_when false m l p = record { reads = λ done. sym (append-nil (texts done)) }

  -- A block with a known answer, for what comes after it.
  pub prints_answer :
      {R T : Type 0} (m : Drawing A R) (f : R → Drawing A T) (l l' : List String) (r : R)
      → Prints m l
      → ((done : List (Draw A)) → (m done).0 ≡ r)
      → Prints (f r) l'
      → Prints (m >>= f) (l ++ l')
  prints_answer m f l l' r p known q = record {
    reads = λ done.
        ap (λ a. texts (f a (m done).1).1) (known done)
        ∙ q.reads (m done).1
        ∙ ap (λ t. t ++ l') (p.reads done)
        ∙ append_assoc (texts done) l l';
  }

pub ruleset joins = (append_assoc, append-nil)

abbrev pub address_lines : Option Address → List String
address_lines none = []
address_lines (some a) = a.street ∷ (join a.zip (join " " a.city)) ∷ []

abbrev pub unit_lines : String → List String
unit_lines unit_id = if not (unit_id == "") then join "Unit: " unit_id ∷ [] else []

-- The parties to a deposit, as they are named on a receipt.
abbrev pub party_lines : {A : Type 0} → Deposit A → List String
party_lines d =
    ("TENANT" ∷ join d.tenant.first_name (join " " d.tenant.last_name) ∷ d.tenant.email ∷ [])
    ++ (address_lines d.tenant.address
        ++ (("PROPERTY" ∷ address_lines (some d.property.address))
            ++ (unit_lines d.property.unit_id ++ ("LANDLORD" ∷ d.landlord.name ∷ []))))

module _ {A : Type 0} ⦃F : Amount A⦄ (G : Fpdf A) where
  pub heading_prints :
      (title subtitle reference dated : String)
      → Prints
          (heading G title subtitle reference dated)
          (title ∷ subtitle ∷ reference ∷ dated ∷ [])
  unfolding heading divider
  heading_prints title subtitle reference dated = record { reads = λ done. simp joins }

  pub row_prints :
      (w : A) (label value : String) → Prints (row G w label value) (label ∷ value ∷ [])
  unfolding row
  row_prints w label value = record { reads = λ done. simp joins }

  pub title_prints : (w : A) (title : String) → Prints (section_title G w title) (title ∷ [])
  unfolding section_title
  title_prints w title = record { reads = λ done. simp joins }

  pub footer_prints :
      (w : A) (note generated : String) → Prints (footer G w note generated) (note ∷ generated ∷ [])
  unfolding footer divider
  footer_prints w note generated = record { reads = λ done. simp joins }

  address_prints : (w : A) (a : Option Address) → Prints (address_cells G w a) (address_lines a)
  address_prints w none = record { reads = λ done. simp joins }
  address_prints w (some a) = record { reads = λ done. simp joins }

  texts-parties :
      (w : A) (d : Deposit A) (done : List (Draw A))
      → texts (parties G w d done).1 ≡ texts done ++ party_lines d
  unfolding parties divider
  texts-parties w d done = elim (Option-cases d.tenant.address) [
    | inl none_given ↦ elim (Bool-cases (d.property.unit_id == "")) [
      | inl whole ↦ rw (none_given, whole) (simp joins)
      | inr unit ↦ rw (none_given, unit) (simp joins)
    ]
    | inr (a, given) ↦ elim (Bool-cases (d.property.unit_id == "")) [
      | inl whole ↦ rw (given, whole) (simp joins)
      | inr unit ↦ rw (given, unit) (simp joins)
    ]
  ]

  pub parties_prints : (w : A) (d : Deposit A) → Prints (parties G w d) (party_lines d)
  parties_prints w d = record { reads = texts-parties w d }
