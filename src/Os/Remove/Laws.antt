-- ===== src/Os/Remove/Laws.antt =====
-- What `os_remove` leaves.
use stdc.Os.Remove.{
  FolderCalls, Node, leaf, folder, Entries, nil, entry, broken, Removal, is_empty, keep,
  remove_child, close_directory, both, remove_node, remove_entries, remove_root, os_remove,
}
use stdc.Prelude.{
  ℕ, ◌+◌, ◌≡◌, refl, ap, inl, inr, Bool-cases, Bool, true, false, Option, none, some, arith,
}

-- 0 means that nothing is left, and as many descriptors were closed as there were to close.
abbrev pub Emptied : ℕ → Removal Entries → Type 0
Emptied given r = (r.failed ≡ false → r.left ≡ nil) × (r.closes ≡ r.opens + given)

abbrev pub Gone : Removal (Option Node) → Type 0
Gone r = (r.failed ≡ false → r.left ≡ none) × (r.closes ≡ r.opens)

both-Emptied :
    (r : Removal (Option Node)) (s : Removal Entries) → Gone r → Emptied 0 s → Emptied 0 (both r s)
unfolding both keep
both-Emptied r s g h = ground arith

close-Emptied :
    (c : FolderCalls) (entries : Entries) (r : Removal Entries)
    → Emptied 0 r
    → Emptied 1 (close_directory c entries r)
unfolding close_directory
close-Emptied c entries r h = ground arith

child-Gone : (c : FolderCalls) (r : Removal Entries) → Emptied 1 r → Gone (remove_child c r)
unfolding remove_child
child-Gone c r h = ground arith

mutual
  unfolding remove_node remove_entries

  node-Gone : (n : Node) → Gone (remove_node n)
  node-Gone (leaf c) = ground arith
  node-Gone (folder c entries) =
      let inner =
        child-Gone c (close_directory c entries (remove_entries entries))
          (close-Emptied c entries (remove_entries entries) (entries-Emptied entries)) in
      ground (arith, inner)

  entries-Emptied : (es : Entries) → Emptied 0 (remove_entries es)
  entries-Emptied nil = ground arith
  entries-Emptied (broken es) = ground arith
  entries-Emptied (entry n es) =
      both-Emptied (remove_node n) (remove_entries es) (node-Gone n) (entries-Emptied es)

pub record Opens (c : FolderCalls) : Type 0 where
  pub inspected : c.inspected ≡ true
  pub opened : c.opened ≡ true
  pub same : c.same ≡ true
  pub streamed : c.streamed ≡ true
  pub closed : c.closed ≡ true

-- Every call that is made about a node succeeds.
unfoldable mutual
  pub Permits : Node → Type 0
  Permits (leaf c) = (c.inspected ≡ true) × (c.unlinked ≡ true)
  Permits (folder c entries) = Opens c × ((c.unlinked ≡ true) × PermitsAll entries)

  pub PermitsAll : Entries → Type 0
  PermitsAll nil = Unit
  PermitsAll (entry n es) = Permits n × PermitsAll es
  PermitsAll (broken es) = ⊥

both-succeeds :
    (r : Removal (Option Node)) (s : Removal Entries)
    → r.failed ≡ false
    → s.failed ≡ false
    → (both r s).failed ≡ false
unfolding both
both-succeeds r s p q = ground arith

folder-succeeds :
    (c : FolderCalls) (es : Entries)
    → Opens c
    → c.unlinked ≡ true
    → (remove_entries es).failed ≡ false
    → (remove_child c (close_directory c es (remove_entries es))).failed ≡ false
unfolding remove_child close_directory is_empty
folder-succeeds c es o u h = ground (arith, entries-Emptied es)

mutual
  unfolding Permits PermitsAll remove_node remove_entries

  node-succeeds : (n : Node) → Permits n → (remove_node n).failed ≡ false
  node-succeeds (leaf c) h = ground arith
  node-succeeds (folder c es) h =
      let o = h.0 in
      simp (o.inspected, o.opened, o.same) (folder-succeeds c es o h.1.0 (entries-succeed es h.1.1))

  entries-succeed : (es : Entries) → PermitsAll es → (remove_entries es).failed ≡ false
  entries-succeed nil h = refl
  entries-succeed (broken es) h = absurd h
  entries-succeed (entry n es) h =
      both-succeeds (remove_node n) (remove_entries es) (node-succeeds n h.0)
        (entries-succeed es h.1)

-- What 0 means: nothing stands at the path, or, for a path with "/." at its end, an empty directory.
abbrev pub Removed : Bool → Option Node → Type 0
Removed true left = left ≡ none
Removed false left = (c : FolderCalls) × (left ≡ some (folder c nil))

root-Removed :
    (self current : Bool) (c : FolderCalls) (r : Removal Entries)
    → Emptied 1 r
    → ((remove_root self current c r).failed ≡ false
        → Removed self (remove_root self current c r).left)
      × ((remove_root self current c r).closes ≡ (remove_root self current c r).opens)
unfolding remove_root
root-Removed true current c r h = ground arith
root-Removed false current c r h =
    (λ e. (c, ap (λ t. some (folder c t)) (h.0 e)), omega (arith, h.1))

-- If `os_remove` returns 0, nothing is left at the path, or an empty directory if the path ends in
-- "/."; and whatever it returns, and wherever in the tree a call fails, every descriptor that was
-- opened is closed.
pub os_remove-Removed :
    (self current : Bool) (n : Node)
    → ((os_remove self current n).failed ≡ false → Removed self (os_remove self current n).left)
      × ((os_remove self current n).closes ≡ (os_remove self current n).opens)
unfolding os_remove
os_remove-Removed true current (leaf c) = ground arith
os_remove-Removed false current (leaf c) = ground arith
os_remove-Removed self current (folder c es) =
    let inner =
      root-Removed self current c (close_directory c es (remove_entries es))
        (close-Emptied c es (remove_entries es) (entries-Emptied es)) in
    elim (Bool-cases c.inspected) [
      | inr p ↦ simp p (λ e. absurd (cc e), refl)
      | inl p ↦ elim (Bool-cases c.opened) [
        | inr q ↦ simp (p, q) (λ e. absurd (cc e), refl)
        | inl q ↦ elim (Bool-cases c.same) [
          | inr t ↦ simp (p, q, t) (λ e. absurd (cc e), refl)
          | inl t ↦ simp (p, q, t) inner
        ]
      ]
    ]

-- If every call about a directory and all that it holds succeeds, however deep, `os_remove` returns 0.
pub os_remove_succeeds :
    (self : Bool) (c : FolderCalls) (es : Entries)
    → Permits (folder c es)
    → (os_remove self true (folder c es)).failed ≡ false
unfolding os_remove remove_root close_directory Permits is_empty
os_remove_succeeds self c es h =
    let o = h.0 in
    ground (
      arith,
      o.inspected,
      o.opened,
      o.same,
      o.streamed,
      o.closed,
      h.1.0,
      entries-succeed es h.1.1,
      entries-Emptied es,
    )
