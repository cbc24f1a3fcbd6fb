-- ===== src/Commit.antt =====
-- scripts/create-signed-commit.py: makes a commit through GitHub's Git Database API and points a
-- branch at it. `Status` reads the list of changed files, `Policy` has the tests of destinations,
-- `Path` the canonical paths, `Payload` the gate of payload mode, `Message` the commit message,
-- `Session` the calls of the API, and `Publish` is `main`.
pub mod Status
pub mod Policy
pub mod Path
pub mod Payload
pub mod Message
pub mod Session
pub mod Arguments
pub mod Publish
mod Samples
