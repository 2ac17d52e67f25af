-- ===== src/Account/Compare/Agrees.antt =====
-- What it means that `compareFor` reports no change.
use compage_go.Base.{
  ◌≡◌, ◌↔◌, refl, ap, Bool, true, false, not, Option, none, some, List, [], ◌∷◌, ◌++◌, ◌==◌,
  nat_comparable, list_comparable, list_same_iff, Bytes, lit, arith, Bool-cases, inl, inr,
}
use compage_go.Go.Strconv.{ℤ, itoa, format_bool}
use compage_go.Go.Strings.{join}
use compage_go.Account.Spec.{Record, Spec, Change, leave_home_unchanged}
use compage_go.Account.Backend.{Os, is_darwin}
use compage_go.Account.Compare.{
  change, when, when_given, same_strings, add, differs, compare_uid, compare_group, compare_gid,
  compare_home, compare_shell, compare_groups, compare_record, compare_hidden, compare_for,
}

-- The record has every field that the specification gives.
pub record Agrees (os : Os) (s : Spec) (r : Record) : Type 0 where
  pub uid : (u : ℤ) → s.uid ≡ some u → r.uid ≡ itoa u
  pub group : (s.group == []) ≡ false → r.group ≡ s.group
  pub gid : (g : ℤ) → s.gid ≡ some g → r.gid ≡ itoa g
  pub home : (s.home_policy == leave_home_unchanged) ≡ false → r.home ≡ s.home
  pub shell : (s.shell == []) ≡ false → r.shell ≡ s.shell
  pub groups : (gs : List Bytes) → s.groups ≡ some gs → same_strings r.groups gs ≡ true
  pub hidden : (h : Bool) → is_darwin os ≡ true → s.hidden ≡ some h → r.hidden ≡ h

append-eq-nil : {A : Type 0} (xs ys : List A) → xs ++ ys ≡ [] → (xs ≡ []) × (ys ≡ [])
append-eq-nil [] ys h = (refl, h)
append-eq-nil (x ∷ xs) ys h = cc

append_nil : {A : Type 0} (xs ys : List A) → xs ≡ [] → ys ≡ [] → xs ++ ys ≡ []
append_nil [] ys h k = k
append_nil (x ∷ xs) ys h k = cc

add-eq-nil : (f a b : Bytes) → add f a b ≡ [] → a ≡ b
add-eq-nil f a b h = elim (Bool-cases (a == b)) [
  | inl e ↦ (list_same_iff a b).0 e
  | inr e ↦ ground arith
]

add_nil : (f a b : Bytes) → a ≡ b → add f a b ≡ []
add_nil f a b h =
    let e : (a == b) ≡ true = (list_same_iff a b).1 h in
    ap (λ t. when (not t) (change f a b ∷ [])) e

module _ {A : Type 0} where
  when_given-eq-nil :
      (o : Option A) (f : A → List Change) → when_given o f ≡ [] → (a : A) → o ≡ some a → f a ≡ []
  when_given-eq-nil none f h a e = cc
  when_given-eq-nil (some b) f h a e = ground arith

  when_given_nil :
      (o : Option A) (f : A → List Change) → ((a : A) → o ≡ some a → f a ≡ []) → when_given o f ≡ []
  when_given_nil none f h = refl
  when_given_nil (some b) f h = h b refl

when-eq-nil : (b : Bool) (cs : List Change) → when b cs ≡ [] → b ≡ true → cs ≡ []
when-eq-nil true cs h e = h
when-eq-nil false cs h e = cc

when_nil : (b : Bool) (cs : List Change) → (b ≡ true → cs ≡ []) → when b cs ≡ []
when_nil true cs h = h refl
when_nil false cs h = refl

differs_iff : (a b : Bool) → (differs a b ≡ false) ↔ (a ≡ b)
differs_iff true true = (λ h. refl, λ h. refl)
differs_iff true false = (λ h. cc, λ h. cc)
differs_iff false true = (λ h. cc, λ h. cc)
differs_iff false false = (λ h. refl, λ h. refl)

module _ (os : Os) (s : Spec) (r : Record) where
  compare_for_sound : compare_for os s r ≡ [] → Agrees os s r
  unfolding compare_for compare_record compare_hidden
  compare_for_sound h =
      let (main, hidden) = append-eq-nil (compare_record s r) (compare_hidden os s r) h in
      let (uid, h) = append-eq-nil (compare_uid s r) _ main in
      let (group, h) = append-eq-nil (compare_group s r) _ h in
      let (gid, h) = append-eq-nil (compare_gid s r) _ h in
      let (home, h) = append-eq-nil (compare_home s r) _ h in
      let (shell, groups) = append-eq-nil (compare_shell s r) (compare_groups s r) h in
      record {
        uid = λ u e.
            add-eq-nil (lit "uid") r.uid (itoa u)
              (when_given-eq-nil s.uid (λ u. add (lit "uid") r.uid (itoa u)) uid u e);
        group = λ e.
            add-eq-nil (lit "group") r.group s.group
              (when-eq-nil (not (s.group == [])) _ group (ap not e));
        gid = λ g e.
            add-eq-nil (lit "gid") r.gid (itoa g)
              (when_given-eq-nil s.gid (λ g. add (lit "gid") r.gid (itoa g)) gid g e);
        home = λ e.
            add-eq-nil (lit "home") r.home s.home
              (when-eq-nil (not (s.home_policy == leave_home_unchanged)) _ home (ap not e));
        shell = λ e.
            add-eq-nil (lit "shell") r.shell s.shell
              (when-eq-nil (not (s.shell == [])) _ shell (ap not e));
        groups = λ gs e. same_of_nil _ _ (
            when_given-eq-nil s.groups
              (λ gs.
                when (not (same_strings r.groups gs))
                  (change (lit "groups") (join r.groups (lit ",")) (join gs (lit ",")) ∷ []))
              groups gs e);
        hidden = λ b d e. hidden_of_nil b _ (
            when_given-eq-nil s.hidden
              (λ h.
                when (differs r.hidden h)
                  (change (lit "hidden") (format_bool r.hidden) (format_bool h) ∷ []))
              (when-eq-nil (is_darwin os) _ hidden d) b e);
      }
    where
      same_of_nil : (b : Bool) (c : Change) → when (not b) (c ∷ []) ≡ [] → b ≡ true
      same_of_nil true c h = refl
      same_of_nil false c h = cc

      hidden_of_nil :
          (b : Bool) (c : Change) → when (differs r.hidden b) (c ∷ []) ≡ [] → r.hidden ≡ b
      hidden_of_nil b c h = elim (Bool-cases (differs r.hidden b)) [
        | inl e ↦ ground arith
        | inr e ↦ (differs_iff r.hidden b).0 e
      ]

  compare_for_complete : Agrees os s r → compare_for os s r ≡ []
  unfolding compare_for compare_record compare_hidden
  compare_for_complete a =
      append_nil (compare_record s r) (compare_hidden os s r)
        (append_nil (compare_uid s r) _
          (when_given_nil s.uid _ λ u e. add_nil (lit "uid") r.uid (itoa u) (a.uid u e))
          (append_nil (compare_group s r) _
            (when_nil (not (s.group == [])) _
              λ e. add_nil (lit "group") r.group s.group (a.group (ground arith)))
            (append_nil (compare_gid s r) _
              (when_given_nil s.gid _ λ g e. add_nil (lit "gid") r.gid (itoa g) (a.gid g e))
              (append_nil (compare_home s r) _
                (when_nil (not (s.home_policy == leave_home_unchanged)) _
                  λ e. add_nil (lit "home") r.home s.home (a.home (ground arith)))
                (append_nil (compare_shell s r) (compare_groups s r)
                  (when_nil (not (s.shell == [])) _
                    λ e. add_nil (lit "shell") r.shell s.shell (a.shell (ground arith)))
                  (when_given_nil s.groups _ λ gs e.
                    when_nil (not (same_strings r.groups gs)) _
                      λ d. absurd (ground (arith, a.groups gs e))))))))
        (when_nil (is_darwin os) _ λ d. when_given_nil s.hidden _ λ b e.
          when_nil (differs r.hidden b) _
            λ c. absurd (ground (arith, (differs_iff r.hidden b).1 (a.hidden b d e))))

  -- `compareFor` reports no change exactly if the record agrees with the specification in every
  -- field that the specification gives.
  pub compare_for-Agrees : (compare_for os s r ≡ []) ↔ Agrees os s r
  compare_for-Agrees = (compare_for_sound, compare_for_complete)
