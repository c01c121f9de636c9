-- ===== src/Tray/Invariant/Workers.antt =====
-- What the end of a worker does to the list of workers.
use jlu_drcom_win.Base.{ℕ, ◌≡◌, ◌+◌, All, Option, none, some, List, [], ◌∷◌, arith}
use jlu_drcom_win.Tray.System.{App, Worker}
use jlu_drcom_win.Tray.Steps.{find, return_in, remove_in}
use jlu_drcom_win.Tray.Invariant.{IsAlone, IsWanted}

pub return-IsAlone :
    (cancel : Option ℕ) (ws : List Worker) (n k : ℕ)
    → IsAlone cancel ws n
    → IsAlone cancel (return_in k ws) n
return-IsAlone none [] n k h = h
return-IsAlone none (w ∷ ws) n k h = h
return-IsAlone (some c) [] n k h = h
return-IsAlone (some c) (w ∷ []) n k h = ground arith
return-IsAlone (some c) (w ∷ v ∷ ws) n k h = h

pub return-IsWanted :
    (a b : App) (ws : List Worker) (k : ℕ)
    → a.desired ≡ b.desired
    → a.suspended ≡ b.suspended
    → a.exiting ≡ b.exiting
    → All (IsWanted a) ws
    → All (IsWanted b) (return_in k ws)
return-IsWanted a b [] k d s e h = tt
return-IsWanted a b (w ∷ ws) k d s e h = (ground (arith, h.0), return-IsWanted a b ws k d s e h.1)

pub done-IsAlone :
    (cancel : Option ℕ) (ws : List Worker) (n : ℕ) (w : Worker)
    → find w.id ws ≡ some w
    → IsAlone cancel ws n
    → IsAlone cancel (remove_in w.id ws) (n + 1)
done-IsAlone none [] n w f h = cc
done-IsAlone none (v ∷ ws) n w f h = absurd h
done-IsAlone (some c) [] n w f h = cc
done-IsAlone (some c) (v ∷ []) n w f h = ground arith
done-IsAlone (some c) (v ∷ u ∷ ws) n w f h = absurd h

pub done-IsWanted :
    (a : App) (ws : List Worker) (k : ℕ) → All (IsWanted a) ws → All (IsWanted a) (remove_in k ws)
done-IsWanted a [] k h = tt
done-IsWanted a (w ∷ ws) k h = ground (arith, done-IsWanted a ws k h.1)
