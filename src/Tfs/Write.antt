-- ===== src/Tfs/Write.antt =====
-- src/tfs.c: what `tfs_write` does to the tree and to the contents of its files.
use trait_os.Base.{ℕ, List, [], ◌==◌, if◌then◌else◌, take}
use trait_os.Base.{◌≡◌, ◌≢◌, ◌⊎◌, inl, inr, sym, ◌∙◌, subst}
use trait_os.Base.{arith}
use trait_os.Base.Update.{update}
use native.Mathlib.Decide.{ℕ_discrete}
use trait_os.Heap.Valid.{Among}
use trait_os.Tfs.State.{Store, Nodes}
use trait_os.Tfs.Valid.{IsTree, Unused, Below, here, child, names-same}

-- The bytes that a reader of the node `n` sees.
abbrev pub contents : Nodes → (ℕ → List ℕ) → ℕ → List ℕ
contents node buffer n =
    if (node n).payload == 0 then [] else take (node n).size (buffer (node n).payload)

-- All that the walks read of the nodes.
abbrev pub SameShape : Nodes → Nodes → Type 0
SameShape node node' =
    (p : ℕ)
    → ((node' p).name ≡ (node p).name)
      × ((node' p).type ≡ (node p).type)
      × ((node' p).parent ≡ (node p).parent)
      × ((node' p).children ≡ (node p).children)

module _ (root : ℕ) (node node' : Nodes) (same : SameShape node node') where
  same-Below : (p : ℕ) → Below node' root p → Below node root p
  same-Below p here = here
  same-Below p (child {d} b i) = child (same-Below d b) (subst (λ l. Among p l) (same d).3 i)

  Below-same : (p : ℕ) → Below node root p → Below node' root p
  Below-same p here = here
  Below-same p (child {d} b i) = child (Below-same d b) (subst (λ l. Among p l) (sym (same d).3) i)

module _ (S : Store) (node : Nodes) (n buf len : ℕ) (v : IsTree S node) (at : Below node S.root n)
    (new : buf ≢ 0 → Unused S.root node buf) where
  abbrev written : Nodes
  written = update node n (record (node n) { payload = buf; size = len })

  pub written-SameShape : SameShape node written
  written-SameShape p = ground arith

  written_payload :
      (p : ℕ)
      → ((p ≡ n) × ((written p).payload ≡ buf))
        ⊎ ((p ≢ n) × ((written p).payload ≡ (node p).payload))
  written_payload p = elim (ℕ_discrete p n) [
    | yes e ↦ inl (e, ground arith)
    | no d ↦ inr (d, ground arith)
  ]

  back : (p : ℕ) → Below written S.root p → Below node S.root p
  back = same-Below S.root node written written-SameShape

  written_payloads :
      (p : ℕ)
      → Below written S.root p
      → (written p).payload ≢ 0
      → Below written S.root (written p).payload
      → ⊥
  written_payloads p b nz x = elim (written_payload p) [
    | inl (e, k) ↦
        (new (λ z. nz (k ∙ z))).1 (subst (λ q. Below node S.root q) k (back (written p).payload x))
    | inr (d, k) ↦
        v.payloads p (back p b) (λ z. nz (k ∙ z))
          (subst (λ q. Below node S.root q) k (back (written p).payload x))
  ]

  -- The new buffer is no node's old payload.
  pub buf_new : (q : ℕ) → Below node S.root q → buf ≢ 0 → buf ≢ (node q).payload
  buf_new q b bz e = (new bz).2 q b (λ z. bz (e ∙ z)) e

  written_own :
      (p q : ℕ)
      → Below written S.root p
      → Below written S.root q
      → (written p).payload ≢ 0
      → (written p).payload ≡ (written q).payload
      → p ≡ q
  written_own p q b c nz e = elim (written_payload p) [
    | inl (x, k) ↦ elim (written_payload q) [
      | inl (y, l) ↦ x ∙ sym y
      | inr (y, l) ↦ absurd (buf_new q (back q c) (λ z. nz (k ∙ z)) (sym k ∙ e ∙ l))
    ]
    | inr (x, k) ↦ elim (written_payload q) [
      | inl (y, l) ↦ absurd (buf_new p (back p b) (λ z. nz (e ∙ l ∙ z)) (sym l ∙ sym e ∙ k))
      | inr (y, l) ↦ v.own p q (back p b) (back q c) (λ z. nz (k ∙ z)) (sym k ∙ e ∙ l)
    ]
  ]

  pub written-IsTree : IsTree S written
  written-IsTree =
      let shape = written-SameShape in
      record {
        top = (shape S.root).2 ∙ v.top;
        top_nonzero = v.top_nonzero;
        parent = λ d c b i.
            let k = v.parent d c (back d b) (subst (λ l. Among c l) (shape d).3 i) in
            ((shape c).2 ∙ k.0, k.1, k.2);
        names = λ d b.
            rw (shape d).3 (
              names-same node written (node d).children (λ c i. (shape c).0)
                (v.names d (back d b)));
        leaves = λ p b ne. (shape p).3 ∙ v.leaves p (back p b) (λ e. ne ((shape p).1 ∙ e));
        height = v.height;
        lower = λ d c b i. v.lower d c (back d b) (subst (λ l. Among c l) (shape d).3 i);
        payloads = written_payloads;
        own = written_own;
      }
