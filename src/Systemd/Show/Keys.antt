-- ===== src/Systemd/Show/Keys.antt =====
-- Which field each key of `systemctl show` sets: the keys by their texts.
use go_runit.Common.{Bool-cases, false, ℕ, ◌≡◌, refl, if◌then◌else◌, ◌==◌, inl, inr}
use go_runit.Common.Text.{codes, equal}
use go_runit.Common.Text.Lines.{equal→eq}
use go_runit.Common.Text.Decimal.{atoi}
use go_runit.Wire.{Bytes}
use go_runit.Systemd.Show.{
  StatusSystemd, Key, active_key, sub_key, load_key, main_pid_key, start_key, result_key, other_key,
  key_of, set_property, pid_of, start_of,
}

-- What `key_of` makes of a key, against the texts of the keys.
abbrev pub key_index : Key → ℕ
key_index active_key = 0
key_index sub_key = 1
key_index load_key = 2
key_index main_pid_key = 3
key_index start_key = 4
key_index result_key = 5
key_index other_key = 6

abbrev pub IsKeyed : Bytes → Type 0
IsKeyed k =
    ((key_index (key_of k) == 0) ≡ equal k (codes "ActiveState"))
    × ((key_index (key_of k) == 1) ≡ equal k (codes "SubState"))
    × ((key_index (key_of k) == 2) ≡ equal k (codes "LoadState"))
    × ((key_index (key_of k) == 3) ≡ equal k (codes "MainPID"))
    × ((key_index (key_of k) == 4) ≡ equal k (codes "ExecMainStartTimestampMonotonic"))
    × ((key_index (key_of k) == 5) ≡ equal k (codes "Result"))

-- A text is one of these, or none.
known : (k t : Bytes) → IsKeyed t → (equal k t ≡ false → IsKeyed k) → IsKeyed k
known k t h f = elim (Bool-cases (equal k t)) [ inl e ↦ rw (equal→eq k t e) h | inr e ↦ f e ]

pub key_of-IsKeyed : (k : Bytes) → IsKeyed k
unfolding key_of
key_of-IsKeyed k =
    known k (codes "ActiveState") (refl, refl, refl, refl, refl, refl)
      (λ a.
        known k (codes "SubState") (refl, refl, refl, refl, refl, refl)
          (λ b.
            known k (codes "LoadState") (refl, refl, refl, refl, refl, refl)
              (λ c.
                known k (codes "MainPID") (refl, refl, refl, refl, refl, refl)
                  (λ d.
                    known k (codes "ExecMainStartTimestampMonotonic")
                      (refl, refl, refl, refl, refl, refl)
                      (λ e.
                        known k (codes "Result") (refl, refl, refl, refl, refl, refl)
                          (λ f. rw (a, b, c, d, e, f) (refl, refl, refl, refl, refl, refl)))))))

pub active-set :
    (k : Key) (v : Bytes) (s : StatusSystemd)
    → (set_property k v s).active_state ≡ (if key_index k == 0 then v else s.active_state)
active-set active_key v s = refl
active-set _ v s = refl

pub sub-set :
    (k : Key) (v : Bytes) (s : StatusSystemd)
    → (set_property k v s).sub_state ≡ (if key_index k == 1 then v else s.sub_state)
sub-set active_key v s = refl
sub-set _ v s = refl

pub load-set :
    (k : Key) (v : Bytes) (s : StatusSystemd)
    → (set_property k v s).load_state ≡ (if key_index k == 2 then v else s.load_state)
load-set active_key v s = refl
load-set _ v s = refl

pub pid-set :
    (k : Key) (v : Bytes) (s : StatusSystemd)
    → (set_property k v s).main_pid
      ≡ (if key_index k == 3 then pid_of (atoi v) s.main_pid else s.main_pid)
pid-set active_key v s = refl
pid-set _ v s = refl

pub start-set :
    (k : Key) (v : Bytes) (s : StatusSystemd)
    → (set_property k v s).start_time
      ≡ (if key_index k == 4 then start_of (atoi v) s.start_time else s.start_time)
start-set active_key v s = refl
start-set _ v s = refl

pub result-set :
    (k : Key) (v : Bytes) (s : StatusSystemd)
    → (set_property k v s).result ≡ (if key_index k == 5 then v else s.result)
result-set active_key v s = refl
result-set _ v s = refl
