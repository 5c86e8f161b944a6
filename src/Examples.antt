-- ===== src/Examples.antt =====
-- The theorems at concrete inputs.
mod Brc
mod Chc
mod Uhash
mod Utmp
mod Record
mod Games
mod Chicken
mod Calendar
mod Money
mod Lock
mod Edit
mod Fav
mod Go
mod Othello
mod Strings
mod Buffer
