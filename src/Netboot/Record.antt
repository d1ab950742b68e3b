-- ===== src/Netboot/Record.antt =====
-- src/netboot_server.rs: `UpState`, the record of what `up` changed.
use llmtune.Prelude.{
  ℕ, ◌≡◌, refl, sym, subst, Bool, true, false, not, ◌&&◌, ◌||◌, List, [], ◌∷◌, ◌++◌, Text, text_eq,
  text_eq_iff, member, is_empty, arith, Bool-cases, inl, inr, if◌then◌else◌,
}

pub record UpState : Type 0 where
  pub version : ℕ
  pub firewall_backend : Text
  pub fw_added : List Text
  pub nft_table_added : Bool
  pub exports_file_added : Bool
  pub started : List Text
  pub enabled : List Text

-- Each item that is not there yet is pushed to the end.
unfoldable pub union : List Text → List Text → List Text
unfolding member
union own [] = own
union own (t ∷ prior) =
    let kept = union own prior in
    let pushed = union (own ++ t ∷ []) prior in if member t own then kept else pushed

unfoldable pub merge_prior : UpState → UpState → UpState
unfolding union
merge_prior st prior = record {
  version = st.version;
  firewall_backend =
      if is_empty st.firewall_backend then prior.firewall_backend else st.firewall_backend;
  fw_added = union st.fw_added prior.fw_added;
  nft_table_added = st.nft_table_added || prior.nft_table_added;
  exports_file_added = st.exports_file_added || prior.exports_file_added;
  started = union st.started prior.started;
  enabled = union st.enabled prior.enabled;
}

unfoldable pub owns_nothing : UpState → Bool
owns_nothing st =
    is_empty st.fw_added
    && not st.nft_table_added
    && not st.exports_file_added
    && is_empty st.started
    && is_empty st.enabled

pub member-append :
    (s : Text) (xs ys : List Text) → member s (xs ++ ys) ≡ member s xs || member s ys
unfolding member
member-append s [] ys = refl
member-append s (x ∷ xs) ys = ground (arith, member-append s xs ys)

member-there :
    (s t : Text) (own : List Text)
    → member t own ≡ true
    → text_eq t s || member s own ≡ member s own
member-there s t own h = elim (Bool-cases (text_eq t s)) [
  | inl same ↦ rw same (sym (subst (λ n. member n own ≡ true) ((text_eq_iff t s).0 same) h))
  | inr other ↦ rw other refl
]

-- A union holds what either list holds.
pub member-union :
    (s : Text) (own prior : List Text) → member s (union own prior) ≡ member s own || member s prior
unfolding union
member-union s own [] = unfold member in ground arith
member-union s own (t ∷ prior) = elim (Bool-cases (member t own)) [
  | inl there_is ↦
      rw there_is (ground (arith, member-union s own prior, member-there s t own there_is))
  | inr new ↦ rw new (
      ground
        (arith, member-union s (own ++ t ∷ []) prior, member-append s own (t ∷ []), first_member))
]
  where
    first_member : member s (t ∷ []) ≡ text_eq t s
    first_member = unfold member in ground arith

is_empty-append : (own : List Text) (t : Text) → is_empty (own ++ t ∷ []) ≡ false
is_empty-append [] t = refl
is_empty-append (x ∷ own) t = refl

not_empty : (t : Text) (own : List Text) → member t own ≡ true → is_empty own ≡ false
unfolding member
not_empty t [] h = cc
not_empty t (x ∷ own) h = refl

is_empty-union :
    (own prior : List Text) → is_empty (union own prior) ≡ is_empty own && is_empty prior
unfolding union
is_empty-union own [] = ground arith
is_empty-union own (t ∷ prior) = elim (Bool-cases (member t own)) [
  | inl there_is ↦ rw there_is (ground (arith, is_empty-union own prior, not_empty t own there_is))
  | inr new ↦ rw new (ground (arith, is_empty-union (own ++ t ∷ []) prior, is_empty-append own t))
]

-- Folding a prior record in loses nothing of either: a rule, a started or an enabled service is
-- owned where one of the two owns it; so is the table, and so is the exports file, each by its own
-- flag; and the merged record owns nothing exactly where both own nothing.
pub merge_prior-owns :
    (st prior : UpState) (rule : Text)
    → let merged = merge_prior st prior in
      (member rule merged.fw_added ≡ member rule st.fw_added || member rule prior.fw_added)
      × (member rule merged.started ≡ member rule st.started || member rule prior.started)
      × (member rule merged.enabled ≡ member rule st.enabled || member rule prior.enabled)
      × (merged.nft_table_added ≡ st.nft_table_added || prior.nft_table_added)
      × (merged.exports_file_added ≡ st.exports_file_added || prior.exports_file_added)
      × (owns_nothing merged ≡ owns_nothing st && owns_nothing prior)
unfolding merge_prior owns_nothing
merge_prior-owns st prior rule = (
  member-union rule st.fw_added prior.fw_added,
  member-union rule st.started prior.started,
  member-union rule st.enabled prior.enabled,
  refl,
  refl,
  ground (
    arith,
    is_empty-union st.fw_added prior.fw_added,
    is_empty-union st.started prior.started,
    is_empty-union st.enabled prior.enabled,
  ),
)
