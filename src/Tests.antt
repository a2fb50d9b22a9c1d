-- ===== src/Tests.antt =====
-- Runs of the definitions and instances of the theorems at concrete inputs.
mod Frames
mod Framebuffers
mod Volumes
mod Processes
mod Pages
mod Blocks
mod Texts
mod Tables
mod Screens
mod Files
mod Started
mod Startups
mod Drives
