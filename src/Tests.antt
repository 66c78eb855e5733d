-- ===== src/Tests.antt =====
-- Tests on concrete inputs, and each theorem applied where its hypotheses hold.
mod World
mod Frames
mod Actors
mod Agent
mod Exchange
mod Cli
mod Output
mod Radio
mod Startup
mod Process
mod Agree
mod Places
mod Wire
mod Program
mod Alone
mod LetGo
