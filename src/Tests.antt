-- ===== src/Tests.antt =====
-- The theorems at concrete inputs.
mod Pointers
mod Queues
mod Programs
mod Barriers
mod GroupBarriers
mod Kernels
mod Chains
mod Coordinates
mod Runtime
mod Softmax
mod Sieve
mod Fourier
