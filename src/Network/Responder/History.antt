-- ===== src/Network/Responder/History.antt =====
-- The history of a repository whose responder (libs/networking_node) handles requests.
use mapit.Base.{Str, ℕ, [], Option, none, some, Bool, true, false, if◌then◌else◌, ◌≡◌, refl}
use mapit.Messages.{Codec, WorkspaceObj}
use mapit.Serializer.Transient
use mapit.Workspace.{Workspace}
use mapit.Repository.{get_workspace, create_workspace, open_workspace, resolve, new_workspace_obj}
use mapit.Network.Messages.{Msg}
use mapit.Serializer.Disk.{Disk}
use mapit.Serializer.Steps.{here, next, new_workspace}
use mapit.EntityData.History.{Kept-refl, Kept-trans}
use mapit.Serializer.History.{Kept, Reach-keeps}
use mapit.Network.Exec.{
  Result, ok, err, Error, Exec, and_then, try_catch, catching, from_outcome, ◌>>=◌, ◌>>◌,
}
use mapit.Network.Node.{send, discard_more, Net, Node, on_node}
use mapit.Network.Server.{Server, reply, gets_disk, with_disk, saved, refuse}
use mapit.Outcome.{Outcome, returned, thrown, running, Ends}

-- What a call does, wherever and however it ends, keeps the history.
module _ {S : Type 0} where
  abbrev pub Safe : {A : Type 0} → Exec (Server S) A → Type 0
  Safe m = (s : Server S) → Kept s.own (m s).1.own

  -- From one state.
  abbrev pub SafeAt : {A : Type 0} → Exec (Server S) A → Server S → Type 0
  SafeAt m s = Kept s.own (m s).1.own

  module _ {A B : Type 0} where
    after-Safe :
        (f : A → Exec (Server S) B) (d : Disk) (r : Result A × Server S)
        → Kept d r.1.own
        → ((a : A) → Safe (f a))
        → Kept d (and_then f r).1.own
    after-Safe f d (ok a, s) h k = Kept-trans d s.own _ h (k a s)
    after-Safe f d (err e, s) h k = h

    pub bind-Safe :
        (m : Exec (Server S) A) (f : A → Exec (Server S) B)
        → Safe m
        → ((a : A) → Safe (f a))
        → Safe (m >>= f)
    bind-Safe m f h k s = after-Safe f s.own (m s) (h s) k

    pub bind-SafeAt :
        (m : Exec (Server S) A) (f : A → Exec (Server S) B) (s : Server S)
        → SafeAt m s
        → ((a : A) → Safe (f a))
        → SafeAt (m >>= f) s
    bind-SafeAt m f s h k = after-Safe f s.own (m s) h k

    pub with_disk-SafeAt :
        (g : Disk → A × Disk) (f : A → Exec (Server S) B) (s : Server S)
        → Kept s.own (g s.own).1
        → Safe (f (g s.own).0)
        → SafeAt (with_disk g >>= f) s
    with_disk-SafeAt g f s h k =
        Kept-trans s.own (g s.own).1 _ h (k (record s { own = (g s.own).1 }))

    -- A call of the core, and what is done with its value.
    pub outcome-Safe :
        (P : A → Type 0) (o : Outcome A) (f : A → Exec (Server S) B) (s : Server S)
        → Ends P o
        → ((a : A) → P a → SafeAt (f a) s)
        → SafeAt (from_outcome o >>= f) s
    outcome-Safe P (returned a) f s h k = k a h
    outcome-Safe P thrown f s h k = Kept-refl s.own
    outcome-Safe P running f s h k = Kept-refl s.own

  module _ {A : Type 0} where
    caught-Safe :
        (c : Error → Bool) (handler : Exec (Server S) A) (d : Disk) (r : Result A × Server S)
        → Kept d r.1.own
        → Safe handler
        → Kept d (catching c handler r).1.own
    caught-Safe c handler d (ok a, s) h k = h
    caught-Safe c handler d (err e, s) h k = if_handled (c e)
      where
        if_handled : (b : Bool) → Kept d (if b then handler s else (err e, s)).1.own
        if_handled true = Kept-trans d s.own _ h (k s)
        if_handled false = h

    pub catch-Safe :
        (m : Exec (Server S) A) (c : Error → Bool) (handler : Exec (Server S) A)
        → Safe m
        → Safe handler
        → Safe (try_catch m c handler)
    catch-Safe m c handler h k s = caught-Safe c handler s.own (m s) (h s) k

    pub still : (m : Exec (Node S) A) → Safe (on_node {D = Disk} m)
    still m s = Kept-refl s.own

    pub pure-Safe : (r : Result A) → Safe (λ s. (r, s))
    pure-Safe r s = Kept-refl s.own

    pub if-SafeAt :
        (b : Bool) (m n : Exec (Server S) A) (s : Server S)
        → SafeAt m s
        → SafeAt n s
        → SafeAt (if b then m else n) s
    if-SafeAt true m n s h k = h
    if-SafeAt false m n s h k = k

    pub gets-Safe : (g : Disk → A) → Safe (gets_disk g)
    gets-Safe g s = Kept-refl s.own

    pub if-Safe : (b : Bool) (m n : Exec (Server S) A) → Safe m → Safe n → Safe (if b then m else n)
    if-Safe true m n h k = h
    if-Safe false m n h k = k

  pub then-Safe :
      {B : Type 0} (m : Exec (Server S) (Unit {0})) (k : Exec (Server S) B)
      → Safe m
      → Safe k
      → Safe (m >> k)
  then-Safe m k h g = bind-Safe m (λ _. k) h (λ _. g)

  pub saved-Safe :
      {B : Type 0} (r : ℕ × Workspace) (k : ℕ → Exec (Server S) B) (s : Server S)
      → Kept s.own r.1.disk
      → ((n : ℕ) → Safe (k n))
      → SafeAt (saved r >>= k) s
  saved-Safe (n, w) k s h g = Kept-trans s.own w.disk _ h (g n (record s { own = w.disk }))

  module _ {F : Type 0} (net : Net F S) where
    pub reply-Safe : (msg : Msg) → Safe (reply net msg)
    reply-Safe msg = still (send net msg false)

    pub refuse-Safe : (msg : Msg) → Safe (refuse net msg)
    refuse-Safe msg =
        then-Safe (on_node (discard_more net)) (reply net msg) (still (discard_more net))
          (reply-Safe msg)

-- A workspace that was just found.
abbrev pub IsAt : Disk → Option Workspace → Type 0
IsAt d none = Unit
IsAt d (some w) = w.disk ≡ d

pub get_workspace-IsAt :
    (codec : Codec) (name : Str) (d : Disk) → IsAt d (get_workspace codec name d)
unfolding get_workspace
get_workspace-IsAt codec name d =
    elim (Transient.get_workspace_commit codec name d)
      as (λ o. IsAt d (elim o [
        | some obj ↦ some (record { name = name; branchname = []; obj = obj; disk = d })
        | none ↦ none
      ])) [ some obj ↦ refl | none ↦ tt ]

pub found-Safe :
    {S : Type 0} (codec : Codec) (name : Str) (f : Option Workspace → Exec (Server S) (Unit {0}))
    → ((o : Option Workspace) (s : Server S) → IsAt s.own o → SafeAt (f o) s)
    → Safe (gets_disk (get_workspace codec name) >>= f)
found-Safe codec name f h s =
    h (get_workspace codec name s.own) s (get_workspace-IsAt codec name s.own)

-- A new workspace is no part of the history.
pub create_workspace-Kept :
    (codec : Codec) (key name : Str) (d : Disk) → Kept d (create_workspace codec key name d).1
unfolding create_workspace open_workspace
create_workspace-Kept codec key name d = taken (Transient.get_workspace_commit codec name d)
  where
    opened : (o : Option (Str × Str)) → Kept d (open_workspace codec name d o).1
    opened none = Kept-refl d
    opened (some (id, branch)) =
        λ q f. Reach-keeps codec q f (next here (new_workspace (new_workspace_obj codec id) name d))

    taken :
        (o : Option WorkspaceObj)
        → Kept d
            (elim o as (λ _. Option Workspace × Disk) [
              | some old ↦ (none, d)
              | none ↦ open_workspace codec name d (resolve codec key d)
            ]).1
    taken (some old) = Kept-refl d
    taken none = opened (resolve codec key d)
